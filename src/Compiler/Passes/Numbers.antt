-- ===== src/Compiler/Passes/Numbers.antt =====
-- Python's arithmetic on the numbers that constants hold, as the passes of uhcr/compiler/passes use
-- it. Python's floats are a parameter: their operations, and the two that mix them with integers.
use uhcr.Prelude.{
  ℕ, zero, suc, ◌/◌, Bool, false, Option, none, some, ℤ, pos, negsuc, ◌+ℤ◌, ◌-ℤ◌, ◌*ℤ◌, nat_beq,
  if◌then◌else◌,
}
use uhcr.Compiler.Ir.Types.{Opcode, add, sub, mul, div, fadd, fsub, fmul, fdiv}
use uhcr.Compiler.Ir.Function.{Number, int, float}

pub record FloatOps (F : Type 0) : Type 0 where
  pub of_int : ℤ → F
  pub float_add : F → F → F
  pub float_sub : F → F → F
  pub float_mul : F → F → F
  pub float_div : F → F → F
  pub float_floor_div : F → F → F
  -- `a / b` on two integers
  pub int_div : ℤ → ℤ → F
  -- `x == n` for the integers 0 and 1, and `x == y`
  pub float_is : F → ℕ → Bool
  pub float_eq : F → F → Bool

-- `a // b` on integers rounds down; it is not called with `b` zero.
unfoldable pub floor_div : ℤ → ℤ → ℤ
floor_div (pos a) (pos b) = pos (a / b)
floor_div (negsuc a) (pos b) = negsuc (a / b)
floor_div (pos zero) (negsuc b) = pos 0
floor_div (pos (suc a)) (negsuc b) = negsuc (a / suc b)
floor_div (negsuc a) (negsuc b) = pos (suc a / suc b)

abbrev pub int_is : ℤ → ℕ → Bool
int_is (pos m) n = nat_beq m n
int_is (negsuc m) n = false

abbrev pub int_eq : ℤ → ℤ → Bool
int_eq (pos m) (pos n) = nat_beq m n
int_eq (negsuc m) (negsuc n) = nat_beq m n
int_eq _ _ = false

module _ {F : Type 0} (fl : FloatOps F) where
  open fl use {
    of_int, float_add, float_sub, float_mul, float_div, float_floor_div, int_div, float_is,
    float_eq,
  }

  abbrev pub is_number : Number F → ℕ → Bool
  is_number (int a) n = int_is a n
  is_number (float x) n = float_is x n

  abbrev pub number_eq : Number F → Number F → Bool
  number_eq (int a) (int b) = int_eq a b
  number_eq (int a) (float y) = float_eq (of_int a) y
  number_eq (float x) (int b) = float_eq x (of_int b)
  number_eq (float x) (float y) = float_eq x y

  abbrev lift : (ℤ → ℤ → ℤ) → (F → F → F) → Number F → Number F → Number F
  lift f h (int a) (int b) = int (f a b)
  lift f h (int a) (float y) = float (h (of_int a) y)
  lift f h (float x) (int b) = float (h x (of_int b))
  lift f h (float x) (float y) = float (h x y)

  unfoldable pub plus : Number F → Number F → Number F
  plus = lift ◌+ℤ◌ float_add

  unfoldable pub minus : Number F → Number F → Number F
  minus = lift ◌-ℤ◌ float_sub

  unfoldable pub times : Number F → Number F → Number F
  times = lift ◌*ℤ◌ float_mul

  unfoldable pub floor_divide : Number F → Number F → Number F
  floor_divide = lift floor_div float_floor_div

  unfoldable pub true_divide : Number F → Number F → Number F
  true_divide (int a) (int b) = float (int_div a b)
  true_divide (int a) (float y) = float (float_div (of_int a) y)
  true_divide (float x) (int b) = float (float_div x (of_int b))
  true_divide (float x) (float y) = float (float_div x y)

  -- The arithmetic part of `ConstantFoldingPass._try_fold`: `none` for a division by zero, and for
  -- every opcode that is not scalar arithmetic.
  unfoldable pub compute : Opcode → Number F → Number F → Option (Number F)
  compute add a b = some (plus a b)
  compute fadd a b = some (plus a b)
  compute sub a b = some (minus a b)
  compute fsub a b = some (minus a b)
  compute mul a b = some (times a b)
  compute fmul a b = some (times a b)
  compute div a b = if is_number b 0 then none else some (floor_divide a b)
  compute fdiv a b = if is_number b 0 then none else some (true_divide a b)
  compute _ a b = none
