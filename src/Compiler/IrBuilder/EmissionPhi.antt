-- ===== src/Compiler/IrBuilder/EmissionPhi.antt =====
-- What `IRBuilder.phi` (uhcr/compiler/ir_builder.py) emits.
use uhcr.Prelude.{
  both_true, ℕ, suc, ◌+◌, ◌≡◌, refl, sym, subst, Bool, true, ◌&&◌, List, [], ◌∷◌, ◌==◌, arith,
  length, leb, nat_beq, Outcome, ok, err, nat_beq_iff, and_left, and_right,
}
use uhcr.Compiler.Ir.Types.{Ty, Opcode, type_eq, i32, f32, ptr}
use uhcr.Compiler.Ir.Function.{Value, label, value_type, constant, int, float}
use uhcr.Compiler.IrBuilder.State.{
  IrBuilder, BlockRef, Operand, BuildError, emit, val, pure, and_then, value, literal_int,
  literal_float, other,
}
use uhcr.Compiler.IrBuilder.Structured.{incoming, phi}
use uhcr.Compiler.IrBuilder.Typing.{well_typed, alternates}
use uhcr.Compiler.IrBuilder.Rules.{Emits, unchecked-Emits, require-Emits, TypedHeap, operand_type}
use uhcr.Compiler.IrBuilder.Fits.{fits1}

-- The operands of a ϕ have its type.
abbrev pub phi_fits : {F : Type 0} → Ty → List (Operand F) → Bool
phi_fits t [] = true
phi_fits t (o ∷ os) = fits1 (λ u. u == t) (operand_type o) && phi_fits t os

two_pairs : (n m : ℕ) → m ≡ n + n → leb 2 n ≡ true → leb 4 m ≡ true
two_pairs n m e h = ground (arith, e, h)

module _ {F : Type 0} (strict : Bool) where
  -- What the operands of a ϕ are, where they can be read: values and labels in turn, two for each.
  abbrev ReadPairs :
      Ty → IrBuilder F → IrBuilder F × Outcome BuildError (List (Value F)) → ℕ → Type 0
  ReadPairs t b (b2, ok args) n =
      (b2 ≡ b) × (strict ≡ true → alternates t args ≡ true) × (length args ≡ n + n)
  ReadPairs t b (b2, err _) n = b2 ≡ b

  pair_read :
      (t : Ty) (v : Value F) (l : BlockRef) (b : IrBuilder F)
      (out : IrBuilder F × Outcome BuildError (List (Value F))) (n : ℕ)
      → (strict ≡ true → (value_type v == t) ≡ true)
      → ReadPairs t b out n
      → ReadPairs t b (and_then out (λ rest. pure (v ∷ label ptr l.name ∷ rest))) (suc n)
  pair_read t v l b (b2, ok args) n f (e, a, m) = (e, (λ s. rw (f s, a s) refl), omega arith)
  pair_read t v l b (b2, err _) n f e = e

  incoming-pairs :
      (t : Ty) (vs : List (Operand F)) (bs : List BlockRef) (b : IrBuilder F)
      → (strict ≡ true → phi_fits t vs ≡ true)
      → length vs ≡ length bs
      → ReadPairs t b (incoming vs bs b) (length vs)
  unfolding incoming val
  incoming-pairs t [] bs b f h = (refl, (λ _. refl), refl)
  incoming-pairs t (v ∷ vs) [] b f h = absurd (omega arith)
  incoming-pairs t (value v ∷ vs) (l ∷ ls) b f h =
      pair_read t v l b (incoming vs ls b) (length vs) (λ s. and_left _ (phi_fits t vs) (f s))
        (incoming-pairs t vs ls b (λ s. and_right (value_type v == t) _ (f s)) (omega arith))
  incoming-pairs t (literal_int n ∷ vs) (l ∷ ls) b f h =
      pair_read t (constant i32 (int n)) l b (incoming vs ls b) (length vs)
        (λ s. and_left _ (phi_fits t vs) (f s))
        (incoming-pairs t vs ls b (λ s. and_right (i32 == t) _ (f s)) (omega arith))
  incoming-pairs t (literal_float x ∷ vs) (l ∷ ls) b f h =
      pair_read t (constant f32 (float x)) l b (incoming vs ls b) (length vs)
        (λ s. and_left _ (phi_fits t vs) (f s))
        (incoming-pairs t vs ls b (λ s. and_right (f32 == t) _ (f s)) (omega arith))
  incoming-pairs t (other ∷ vs) (l ∷ ls) b f h = refl

  phi_read :
      (t : Ty) (b : IrBuilder F) (out : IrBuilder F × Outcome BuildError (List (Value F))) (n : ℕ)
      → ReadPairs t b out n
      → leb 2 n ≡ true
      → TypedHeap strict b.heap
      → TypedHeap strict (and_then out (emit Opcode.phi t)).0.heap
  unfolding well_typed
  phi_read t b (b2, ok args) n (e, a, m) h typed =
      unchecked-Emits strict Opcode.phi t args refl (λ s. both_true _ _ (two_pairs n _ m h) (a s))
        b2 (subst (λ x. TypedHeap strict x.heap) (sym e) typed)
  phi_read t b (b2, err _) n e h typed = subst (λ x. TypedHeap strict x.heap) (sym e) typed

  pub phi-Emits :
      (vs : List (Operand F)) (bs : List BlockRef) (t : Ty)
      → (strict ≡ true → phi_fits t vs ≡ true)
      → Emits strict (phi vs bs t)
  unfolding phi
  phi-Emits vs bs t f = require-Emits strict (nat_beq (length vs) (length bs)) _ (λ h.
      require-Emits strict (leb 2 (length vs)) _ (λ k. λ b. λ typed.
        phi_read t b (incoming vs bs b) (length vs)
          (incoming-pairs t vs bs b f ((nat_beq_iff _ _).0 h)) k typed))
