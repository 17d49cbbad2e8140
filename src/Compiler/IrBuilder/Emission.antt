-- ===== src/Compiler/IrBuilder/Emission.antt =====
-- The types of what the emitting methods of `IRBuilder` (uhcr/compiler/ir_builder.py) emit.
use uhcr.Prelude.{
  ◌≡◌, refl, Bool, true, ◌&&◌, ◌||◌, List, [], ◌∷◌, ◌==◌, sym, ◌∙◌, and_left, and_right, ==→≡,
}
use uhcr.Compiler.Ir.Types.{Ty, Opcode, type_eq, type_beq_iff, i32, v2f64}
use uhcr.Compiler.Ir.Function.{Value, value_type}
use uhcr.Compiler.IrBuilder.State.{BlockRef, Operand}
use uhcr.Compiler.IrBuilder.Methods.{is_wide, vector, vadd, vsub, vmul, vdiv, vfmadd, jmp}
use uhcr.Compiler.IrBuilder.Typing.{well_typed, wide, wide_type, fma_type}
use uhcr.Compiler.IrBuilder.Rules.{Emits, emit-Emits, val-Emits, require-Emits}

is_wide-agrees : (t : Ty) → is_wide t ≡ wide_type t
is_wide-agrees i32 = refl
is_wide-agrees _ = refl

pub same : (t u : Ty) → t ≡ u → (t == u) ≡ true
same t u e = (type_beq_iff t u).1 e

-- The typing of an opcode is the given one.
abbrev IsTypedBy : {F : Type 0} → Opcode → (Ty → List (Value F) → Bool) → Type 0
IsTypedBy {F = F} op rule = (t : Ty) (args : List (Value F)) → well_typed op t args ≡ rule t args

fma_type-agrees : (t : Ty) → (is_wide t || t == v2f64) ≡ fma_type t
fma_type-agrees i32 = refl
fma_type-agrees _ = refl

module _ {F : Type 0} (strict : Bool) where
  wide_case :
      (a b : Value F)
      → (value_type a == value_type b && is_wide (value_type a)) ≡ true
      → wide (value_type a) (a ∷ b ∷ []) ≡ true
  wide_case a b h =
      let agree =
        ==→≡ (value_type a) (value_type b) (and_left (value_type a == value_type b) _ h) in
      let fits = and_right (value_type a == value_type b) (is_wide (value_type a)) h in
      rw
        (
          sym (is_wide-agrees (value_type a)),
          fits,
          same (value_type b) (value_type a) (sym agree),
          same (value_type a) _ refl,
        )
        refl

  vector-Emits :
      (op : Opcode)
      → IsTypedBy {F = F} op (λ t. λ args. wide t args)
      → (a b : Operand F) → Emits strict (vector op a b)
  unfolding vector
  vector-Emits op h a b = val-Emits strict a _ (λ va.
      val-Emits strict b _
        (λ vb. require-Emits strict _ _ (λ c. emit-Emits strict _ _ _ (h _ _ ∙ wide_case va vb c))))

  pub vadd-Emits : (a b : Operand F) → Emits strict (vadd a b)
  unfolding vadd well_typed
  vadd-Emits = vector-Emits Opcode.vadd (λ t. λ args. refl)

  pub vsub-Emits : (a b : Operand F) → Emits strict (vsub a b)
  unfolding vsub well_typed
  vsub-Emits = vector-Emits Opcode.vsub (λ t. λ args. refl)

  pub vmul-Emits : (a b : Operand F) → Emits strict (vmul a b)
  unfolding vmul well_typed
  vmul-Emits = vector-Emits Opcode.vmul (λ t. λ args. refl)

  pub vdiv-Emits : (a b : Operand F) → Emits strict (vdiv a b)
  unfolding vdiv well_typed
  vdiv-Emits = vector-Emits Opcode.vdiv (λ t. λ args. refl)

  pub jmp-Emits : (l : BlockRef) → Emits {F = F} strict (jmp l)
  unfolding jmp well_typed
  jmp-Emits l = emit-Emits strict _ _ _ refl

  fma_case :
      (c a b : Value F)
      → ((value_type c == value_type a && value_type a == value_type b)
          && (is_wide (value_type a) || value_type a == v2f64))
        ≡ true
      → well_typed Opcode.vfmadd (value_type a) (c ∷ a ∷ b ∷ []) ≡ true
  unfolding well_typed
  fma_case c a b h =
      let alike = and_left (value_type c == value_type a && value_type a == value_type b) _ h in
      let agree =
        ==→≡ (value_type c) (value_type a) (and_left (value_type c == value_type a) _ alike) in
      let agree2 =
        ==→≡ (value_type a) (value_type b) (and_right (value_type c == value_type a) _ alike) in
      let fits =
        and_right (value_type c == value_type a && value_type a == value_type b)
          (is_wide (value_type a) || value_type a == v2f64) h in
      rw
        (
          sym (fma_type-agrees (value_type a)),
          fits,
          same (value_type c) (value_type a) agree,
          same (value_type b) (value_type a) (sym agree2),
          same (value_type a) _ refl,
        )
        refl

  pub vfmadd-Emits : (c a b : Operand F) → Emits strict (vfmadd c a b)
  unfolding vfmadd
  vfmadd-Emits c a b = val-Emits strict c _ (λ vc. val-Emits strict a _ (λ va.
      val-Emits strict b _
        (λ vb. require-Emits strict _ _ (λ h. emit-Emits strict _ _ _ (fma_case vc va vb h)))))
