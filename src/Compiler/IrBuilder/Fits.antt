-- ===== src/Compiler/IrBuilder/Fits.antt =====
-- The calls of the methods of `IRBuilder` (uhcr/compiler/ir_builder.py) that do not check the types of
-- their operands: what the operands have to be, and the instructions that they then give.
use uhcr.Prelude.{
  ◌≡◌, refl, Bool, true, false, ◌&&◌, ◌||◌, not, List, [], ◌∷◌, Option, none, some, String, ◌==◌,
  string_eq, ◌∙◌, arith, and_left, and_right, Bool-cases, inl, inr,
}
use uhcr.Compiler.Ir.Types.{Ty, Opcode, type_eq, type_beq_iff, i32, ptr, void}
use uhcr.Compiler.Ir.Function.{Value, value_type}
use uhcr.Compiler.IrBuilder.State.{BlockRef, Operand, Exec, val, ◌>>=◌}
use uhcr.Compiler.IrBuilder.Methods.{
  is_float, arithmetic, add, sub, mul, div, load, store, vload, vstore, cmp, br, ret, matmul, relu,
}
use uhcr.Compiler.IrBuilder.Typing.{
  well_typed, checked, scalar, integer_type, float_type, number_type, number_pair, address,
  fma_type, condition_name,
}
use uhcr.Compiler.IrBuilder.Rules.{Emits, emit-Emits, unchecked-Emits, read-Emits, operand_type}

-- A test of the types of operands. A call with an operand that is no value raises, and passes.
abbrev pub fits1 : (Ty → Bool) → Option Ty → Bool
fits1 p none = true
fits1 p (some t) = p t

abbrev pub fits2 : (Ty → Ty → Bool) → Option Ty → Option Ty → Bool
fits2 p none u = true
fits2 p (some t) u = fits1 (p t) u

abbrev pub fits3 : (Ty → Ty → Ty → Bool) → Option Ty → Option Ty → Option Ty → Bool
fits3 p none u w = true
fits3 p (some t) u w = fits2 (p t) u w

-- What the methods leave to the caller.
abbrev pub load_fits : Ty → Ty → Ty → Bool
load_fits t p o = number_type t && address p o

abbrev pub vload_fits : Ty → Ty → Ty → Bool
vload_fits t p o = fma_type t && address p o

abbrev pub cmp_fits : String → Ty → Ty → Bool
cmp_fits c t u = condition_name c && number_pair t u

abbrev pub not_void : Ty → Bool
not_void t = not (t == void)

abbrev pub pointers : Ty → Ty → Bool
pointers t u = t == ptr && u == ptr

abbrev pub pointers3 : Ty → Ty → Ty → Bool
pointers3 t u w = t == ptr && pointers u w

is_float-agrees : (t : Ty) → is_float t ≡ float_type t
is_float-agrees i32 = refl
is_float-agrees _ = refl

abbrev pub ret_fits : {F : Type 0} → Option (Operand F) → Bool
ret_fits none = true
ret_fits (some v) = fits1 not_void (operand_type v)

-- The typing of an opcode whose operands are not checked is that of scalars of some types.
abbrev IsScalar : Type 0 → Opcode → (Ty → Bool) → Type 0
IsScalar F op p =
    (checked op ≡ false)
    × ((t : Ty) (args : List (Value F)) → well_typed op t args ≡ scalar p t args)

integer_left : (t u : Ty) → float_type t ≡ false → number_pair t u ≡ true → integer_type t ≡ true
integer_left t u n h =
    let number = and_right (u == t) (integer_type t || float_type t) h in ground (arith, number, n)

module _ {F : Type 0} (strict : Bool) where
  -- One, two or three operands are read, and their types pass.
  read1 :
      (p : Ty → Bool) (a : Operand F) (k : Value F → Exec F (Value F))
      → (strict ≡ true → fits1 p (operand_type a) ≡ true)
      → ((v : Value F) → (strict ≡ true → p (value_type v) ≡ true) → Emits strict (k v))
      → Emits strict (val a >>= k)
  read1 p a k h g = read-Emits strict a k (λ v e. g v (λ s. rw e at (h s)))

  read2 :
      (p : Ty → Ty → Bool) (a b : Operand F) (k : Value F → Value F → Exec F (Value F))
      → (strict ≡ true → fits2 p (operand_type a) (operand_type b) ≡ true)
      → ((v w : Value F)
          → (strict ≡ true → p (value_type v) (value_type w) ≡ true)
          → Emits strict (k v w))
      → Emits strict (val a >>= λ v. val b >>= k v)
  read2 p a b k h g =
      read-Emits strict a _
        (λ v e. read1 (p (value_type v)) b (k v) (λ s. rw e at (h s)) (λ w f. g v w f))

  read3 :
      (p : Ty → Ty → Ty → Bool) (a b c : Operand F)
      (k : Value F → Value F → Value F → Exec F (Value F))
      → (strict ≡ true → fits3 p (operand_type a) (operand_type b) (operand_type c) ≡ true)
      → ((v w x : Value F)
          → (strict ≡ true → p (value_type v) (value_type w) (value_type x) ≡ true)
          → Emits strict (k v w x))
      → Emits strict (val a >>= λ v. val b >>= λ w. val c >>= k v w)
  read3 p a b c k h g =
      read-Emits strict a _
        (λ v e. read2 (p (value_type v)) b c (k v) (λ s. rw e at (h s)) (λ w x f. g v w x f))

  scalar_fits :
      (p : Ty → Bool) (a b : Value F)
      → p (value_type a) ≡ true
      → number_pair (value_type a) (value_type b) ≡ true
      → scalar p (value_type a) (a ∷ b ∷ []) ≡ true
  scalar_fits p a b h k =
      rw
        (
          (type_beq_iff (value_type a) (value_type a)).1 refl,
          and_left (value_type b == value_type a) (number_type (value_type a)) k,
          h,
        )
        refl

  arithmetic-Emits :
      (iop fop : Opcode)
      → IsScalar F iop integer_type
      → IsScalar F fop float_type
      → (a b : Operand F)
      → (strict ≡ true → fits2 number_pair (operand_type a) (operand_type b) ≡ true)
      → Emits strict (arithmetic iop fop a b)
  unfolding arithmetic
  arithmetic-Emits iop fop (n, i) (m, f) a b h = read2 number_pair a b _ h (λ v w fit.
      rw (is_float-agrees (value_type v)) (elim (Bool-cases (float_type (value_type v))) [
        | inl y ↦ rw y (
            unchecked-Emits strict fop (value_type v) (v ∷ w ∷ []) m
              (λ s. f _ _ ∙ scalar_fits float_type v w y (fit s)))
        | inr z ↦ rw z (
            unchecked-Emits strict iop (value_type v) (v ∷ w ∷ []) n (λ s.
              i _ _
              ∙ scalar_fits integer_type v w (integer_left _ (value_type w) z (fit s)) (fit s)))
      ]))

  pub add-Emits :
      (a b : Operand F)
      → (strict ≡ true → fits2 number_pair (operand_type a) (operand_type b) ≡ true)
      → Emits strict (add a b)
  unfolding add well_typed
  add-Emits = arithmetic-Emits Opcode.add Opcode.fadd (refl, λ t args. refl) (refl, λ t args. refl)

  pub sub-Emits :
      (a b : Operand F)
      → (strict ≡ true → fits2 number_pair (operand_type a) (operand_type b) ≡ true)
      → Emits strict (sub a b)
  unfolding sub well_typed
  sub-Emits = arithmetic-Emits Opcode.sub Opcode.fsub (refl, λ t args. refl) (refl, λ t args. refl)

  pub mul-Emits :
      (a b : Operand F)
      → (strict ≡ true → fits2 number_pair (operand_type a) (operand_type b) ≡ true)
      → Emits strict (mul a b)
  unfolding mul well_typed
  mul-Emits = arithmetic-Emits Opcode.mul Opcode.fmul (refl, λ t args. refl) (refl, λ t args. refl)

  pub div-Emits :
      (a b : Operand F)
      → (strict ≡ true → fits2 number_pair (operand_type a) (operand_type b) ≡ true)
      → Emits strict (div a b)
  unfolding div well_typed
  div-Emits = arithmetic-Emits Opcode.div Opcode.fdiv (refl, λ t args. refl) (refl, λ t args. refl)

  pub load-Emits :
      (p o : Operand F) (t : Ty)
      → (strict ≡ true → fits2 (load_fits t) (operand_type p) (operand_type o) ≡ true)
      → Emits strict (load p o t)
  unfolding load well_typed
  load-Emits p o t h =
      read2 (load_fits t) p o _ h (λ v w fit. unchecked-Emits strict _ _ _ refl fit)

  pub vload-Emits :
      (p o : Operand F) (t : Ty)
      → (strict ≡ true → fits2 (vload_fits t) (operand_type p) (operand_type o) ≡ true)
      → Emits strict (vload p o t)
  unfolding vload well_typed
  vload-Emits p o t h =
      read2 (vload_fits t) p o _ h (λ v w fit. unchecked-Emits strict _ _ _ refl fit)

  pub store-Emits :
      (v p o : Operand F)
      → (strict ≡ true → fits3 load_fits (operand_type v) (operand_type p) (operand_type o) ≡ true)
      → Emits strict (store v p o)
  unfolding store well_typed
  store-Emits v p o h =
      read3 load_fits v p o _ h (λ v w x fit. unchecked-Emits strict _ _ _ refl fit)

  pub vstore-Emits :
      (v p o : Operand F)
      → (strict ≡ true → fits3 vload_fits (operand_type v) (operand_type p) (operand_type o) ≡ true)
      → Emits strict (vstore v p o)
  unfolding vstore well_typed
  vstore-Emits v p o h =
      read3 vload_fits v p o _ h (λ v w x fit. unchecked-Emits strict _ _ _ refl fit)

  pub cmp-Emits :
      (c : String) (a b : Operand F)
      → (strict ≡ true → fits2 (cmp_fits c) (operand_type a) (operand_type b) ≡ true)
      → Emits strict (cmp c a b)
  unfolding cmp well_typed
  cmp-Emits c a b h = read2 (cmp_fits c) a b _ h (λ v w fit. unchecked-Emits strict _ _ _ refl fit)

  pub br-Emits :
      (c : Operand F) (l m : BlockRef)
      → (strict ≡ true → fits1 integer_type (operand_type c) ≡ true)
      → Emits strict (br c l m)
  unfolding br well_typed
  br-Emits c l m h = read1 integer_type c _ h (λ v fit. unchecked-Emits strict _ _ _ refl fit)

  pub ret-Emits :
      (v : Option (Operand F)) → (strict ≡ true → ret_fits v ≡ true) → Emits strict (ret v)
  unfolding ret well_typed
  ret-Emits none h = emit-Emits strict _ _ _ refl
  ret-Emits (some v) h = read1 not_void v _ h (λ w fit. unchecked-Emits strict _ _ _ refl fit)

  pub matmul-Emits :
      (a b o : Operand F)
      → (strict ≡ true → fits3 pointers3 (operand_type a) (operand_type b) (operand_type o) ≡ true)
      → Emits strict (matmul a b o)
  unfolding matmul well_typed
  matmul-Emits a b o h =
      read3 pointers3 a b o _ h (λ v w x fit. unchecked-Emits strict _ _ _ refl fit)

  pub relu-Emits :
      (a o : Operand F)
      → (strict ≡ true → fits2 pointers (operand_type a) (operand_type o) ≡ true)
      → Emits strict (relu a o)
  unfolding relu well_typed
  relu-Emits a o h = read2 pointers a o _ h (λ v w fit. unchecked-Emits strict _ _ _ refl fit)
