-- ===== src/Tests/Calculator.antt =====
-- A machine on which the passes of uhcr/compiler/passes are sound: its values are integers, floats
-- included, and its memory is the list of the operands of the instructions with side effects.
use uhcr.Prelude.{
  ℕ, ◌≡◌, refl, true, false, List, [], ◌∷◌, ◌++◌, some, ap, ◌∙◌, arith, ℤ, pos, negsuc, ◌+ℤ◌, ◌-ℤ◌,
  ◌*ℤ◌, if◌then◌else◌, ◌==◌, string_eq,
}
use uhcr.Compiler.Ir.Types.{Opcode, add, sub, mul, div, fadd, fsub, fmul, fdiv, type_eq}
use uhcr.Compiler.Ir.Function.{Number, int, float}
use uhcr.Compiler.Ir.Machine.{Machine}
use uhcr.Compiler.Passes.Numbers.{
  FloatOps, floor_div, int_is, int_eq, is_number, number_eq, compute, plus, minus, times,
  floor_divide, true_divide,
}
use uhcr.Compiler.Passes.ConstantFolding.Sound.{Evaluates}
use uhcr.Compiler.Passes.StrengthReduction.Defs.{
  family, multiplication, addition, subtraction, division,
}
use uhcr.Compiler.Passes.StrengthReduction.Sound.{Identities}
use uhcr.Compiler.Passes.DeadCode.Defs.{has_side_effects}
use uhcr.Compiler.Passes.DeadCode.Sound.{IsQuiet}
use uhcr.Compiler.Passes.Cse.Defs.{no_cse}
use uhcr.Compiler.Passes.Cse.Sound.{IsPure}

abbrev pub whole_floats : FloatOps ℤ
whole_floats = record {
  of_int = λ z. z;
  float_add = ◌+ℤ◌;
  float_sub = ◌-ℤ◌;
  float_mul = ◌*ℤ◌;
  float_div = floor_div;
  float_floor_div = floor_div;
  int_div = floor_div;
  float_is = int_is;
  float_eq = int_eq;
}

abbrev pub number_value : Number ℤ → ℤ
number_value (int z) = z
number_value (float z) = z

abbrev pub operate : Opcode → ℤ → ℤ → ℤ
operate add a b = a +ℤ b
operate fadd a b = a +ℤ b
operate sub a b = a -ℤ b
operate fsub a b = a -ℤ b
operate mul a b = a *ℤ b
operate fmul a b = a *ℤ b
operate div a b = floor_div a b
operate fdiv a b = floor_div a b
operate _ a b = pos 0

abbrev pub denote : Opcode → List ℤ → ℤ
denote op (a ∷ b ∷ []) = operate op a b
denote op _ = pos 0

abbrev pub execute : Opcode → List ℤ → List ℤ → ℤ × List ℤ
execute op vs m = if has_side_effects op then (pos 0, vs ++ m) else (denote op vs, m)

abbrev pub calculator : Machine ℤ
calculator = record {
  V = ℤ;
  Mem = List ℤ;
  load = λ t c. number_value c;
  load_label = λ t l. pos 0;
  load_argument = λ a. if a == "arg0" then pos 7 else negsuc 2;
  exec = λ op t vs m. execute op vs m;
}

lifted :
    (op : Opcode) (a b c : Number ℤ)
    → compute whole_floats op a b ≡ some c
    → (has_side_effects op ≡ false)
      × (operate op (number_value a) (number_value b) ≡ number_value c)
unfolding compute plus minus times floor_divide true_divide has_side_effects
lifted add a b c h = ground arith
lifted sub a b c h = ground arith
lifted mul a b c h = ground arith
lifted div a b c h = ground arith
lifted fadd a b c h = ground arith
lifted fsub a b c h = ground arith
lifted fmul a b c h = ground arith
lifted fdiv a b c h = ground arith
lifted _ a b c h = absurd (cc)

pub calculator-Evaluates : Evaluates whole_floats calculator
calculator-Evaluates op t t₁ t₂ a b c m h =
    let (quiet, value) = lifted op a b c h in rw quiet (ap (λ z. (z, m)) value)

pub calculator-IsQuiet : IsQuiet calculator
calculator-IsQuiet op t vs m a b = rw a

excluded_first : (op : Opcode) → no_cse op ≡ false → has_side_effects op ≡ false
unfolding no_cse has_side_effects
excluded_first op h = ground arith

pub calculator-IsPure : IsPure whole_floats calculator
calculator-IsPure = record {
  pure = λ op t vs m m' a b. rw (excluded_first op a);
  equal_numbers = λ t a b h. same_number a b h;
}
  where
    same_int : (a b : ℤ) → int_eq a b ≡ true → a ≡ b
    same_int a b h = ground arith

    same_number :
        (a b : Number ℤ) → number_eq whole_floats a b ≡ true → number_value a ≡ number_value b
    same_number (int a) (int b) h = same_int a b h
    same_number (int a) (float b) h = same_int a b h
    same_number (float a) (int b) h = same_int a b h
    same_number (float a) (float b) h = same_int a b h

is-constant : (c : Number ℤ) (n : ℕ) → is_number whole_floats c n ≡ true → number_value c ≡ pos n
is-constant (int (pos m)) n h = ground arith
is-constant (int (negsuc m)) n h = absurd (cc)
is-constant (float (pos m)) n h = ground arith
is-constant (float (negsuc m)) n h = absurd (cc)

module _ (x : ℤ) where
  times_zero : x *ℤ pos 0 ≡ pos 0
  unfolding ◌*ℤ◌
  times_zero = ground arith

  zero_times : pos 0 *ℤ x ≡ pos 0
  unfolding ◌*ℤ◌
  zero_times = ground arith

  times_one : x *ℤ pos 1 ≡ x
  unfolding ◌*ℤ◌
  times_one = ground arith

  one_times : pos 1 *ℤ x ≡ x
  unfolding ◌*ℤ◌
  one_times = ground arith

  plus_zero : x +ℤ pos 0 ≡ x
  unfolding ◌+ℤ◌
  plus_zero = ground arith

  zero_plus : pos 0 +ℤ x ≡ x
  unfolding ◌+ℤ◌
  zero_plus = ground arith

  minus_zero : x -ℤ pos 0 ≡ x
  unfolding ◌-ℤ◌
  minus_zero = ground arith

  minus_self : x -ℤ x ≡ pos 0
  unfolding ◌-ℤ◌
  minus_self = ground arith

floor_div_one : (x : ℤ) → floor_div x (pos 1) ≡ x
unfolding floor_div
floor_div_one (pos n) = ap pos (omega arith)
floor_div_one (negsuc n) = ap negsuc (omega arith)

multiplies :
    (op : Opcode) (a b : ℤ) (m : List ℤ)
    → family op ≡ multiplication
    → execute op (a ∷ b ∷ []) m ≡ (a *ℤ b, m)
unfolding has_side_effects
multiplies mul a b m e = refl
multiplies fmul a b m e = refl
multiplies _ a b m e = absurd (cc)

adds :
    (op : Opcode) (a b : ℤ) (m : List ℤ)
    → family op ≡ addition
    → execute op (a ∷ b ∷ []) m ≡ (a +ℤ b, m)
unfolding has_side_effects
adds add a b m e = refl
adds fadd a b m e = refl
adds _ a b m e = absurd (cc)

subtracts :
    (op : Opcode) (a b : ℤ) (m : List ℤ)
    → family op ≡ subtraction
    → execute op (a ∷ b ∷ []) m ≡ (a -ℤ b, m)
unfolding has_side_effects
subtracts sub a b m e = refl
subtracts fsub a b m e = refl
subtracts _ a b m e = absurd (cc)

divides :
    (op : Opcode) (a b : ℤ) (m : List ℤ)
    → family op ≡ division
    → execute op (a ∷ b ∷ []) m ≡ (floor_div a b, m)
unfolding has_side_effects
divides div a b m e = refl
divides fdiv a b m e = refl
divides _ a b m e = absurd (cc)

pub calculator-Identities : Identities whole_floats calculator
calculator-Identities = record {
  mul_zero = λ op t t' x c m e z.
      multiplies op x (number_value c) m e ∙ rw (is-constant c 0 z, times_zero x);
  zero_mul = λ op t t' x c m e z.
      multiplies op (number_value c) x m e ∙ rw (is-constant c 0 z, zero_times x);
  mul_one = λ op t t' x c m e z.
      multiplies op x (number_value c) m e ∙ rw (is-constant c 1 z, times_one x);
  one_mul = λ op t t' x c m e z.
      multiplies op (number_value c) x m e ∙ rw (is-constant c 1 z, one_times x);
  add_zero =
      λ op t t' x c m e z. adds op x (number_value c) m e ∙ rw (is-constant c 0 z, plus_zero x);
  zero_add =
      λ op t t' x c m e z. adds op (number_value c) x m e ∙ rw (is-constant c 0 z, zero_plus x);
  sub_zero = λ op t t' x c m e z.
      subtracts op x (number_value c) m e ∙ rw (is-constant c 0 z, minus_zero x);
  sub_self = λ op t x m e. subtracts op x x m e ∙ rw (minus_self x);
  div_one = λ op t t' x c m e z.
      divides op x (number_value c) m e ∙ rw (is-constant c 1 z, floor_div_one x);
}
