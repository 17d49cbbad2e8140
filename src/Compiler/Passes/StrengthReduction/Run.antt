-- ===== src/Compiler/Passes/StrengthReduction/Run.antt =====
-- `StrengthReductionPass.run` on a whole function (uhcr/compiler/passes/strength_reduction.py).
use uhcr.Prelude.{
  ℕ, ◌+◌, ◌≡◌, refl, List, [], ◌∷◌, Option, none, some, ap, sym, ◌∙◌, arith, length, subst, nat_eq,
  pos, inl, inr, ◌⊎◌,
}
use uhcr.Prelude.Dict.{lookup, insert, lookup-insert}
use uhcr.Compiler.Ir.Types.{Ty, Opcode}
use uhcr.Compiler.Ir.Function.{int, Value, Instruction, Function, flatten, count}
use uhcr.Compiler.Ir.Machine.{
  Machine, State, value_of, values_of, outcome, step, Typed, Settled, IsSsa, exec_all,
}
use uhcr.Compiler.Ir.Numbering.{
  exec_function, exec-reassign_ids, reassign_ids-IsSsa, reassign_ids-NumberedFrom, NumberedFrom,
  count-length,
}
use uhcr.Compiler.Passes.Numbers.{FloatOps}
use uhcr.Compiler.Passes.Substitution.{
  extend, Related, Related-refl, Related-cong, Related-step, Related-drop, value_of-apply,
}
use uhcr.Compiler.Passes.Tables.{
  resolve, TableSettled, TableTyped, resolve-Settled, TableSettled-tail, table-insert, AllHold,
  AllHold-Settled, AllHold-Typed, resolve-TypedIn, constant-Settled,
}
use uhcr.Compiler.Passes.Sweep.{
  sweep, sweep_blocks, flatten-sweep_blocks, sweep_rule, sweep-IsSsa, Emits, FreshIn, FreshIn-nil,
  FreshIn-insert, step_emitted,
}
use uhcr.Compiler.Passes.StrengthReduction.Defs.{
  Family, family, multiplication, addition, subtraction, division, other, zero_of, Reduction,
  reduce, reduce_args, try_reduce, visit, visit_with, start, run,
}
use uhcr.Compiler.Passes.StrengthReduction.Sound.{Identities, reduce-exec}

module _ {F : Type 0} (fl : FloatOps F) where
  reduce-range :
      (fam : Family) (t : Ty) (a b : Value F) {w : Value F}
      → reduce fl fam t a b ≡ some w
      → (zero_of t ≡ w) ⊎ (a ≡ w) ⊎ (b ≡ w)
  unfolding reduce
  reduce-range multiplication t a b h = ground arith
  reduce-range addition t a b h = ground arith
  reduce-range subtraction t a b h = ground arith
  reduce-range division t a b h = ground arith
  reduce-range other t a b h = ground arith

  -- What replaces an instruction is the constant zero or one of its operands, resolved.
  try_reduce-elim :
      (P : Value F → Type 0) (d : List (ℕ × Value F)) (op : Opcode) (t : Ty) (vs : List (Value F))
      {w : Value F}
      → P (zero_of t)
      → AllHold (λ v. P (resolve d v)) vs
      → reduce_args fl d op t vs ≡ some w
      → P w
  try_reduce-elim P d op t [] zero all h = absurd (cc)
  try_reduce-elim P d op t (a ∷ []) zero all h = absurd (cc)
  try_reduce-elim P d op t (a ∷ b ∷ x ∷ vs) zero all h = absurd (cc)
  try_reduce-elim P d op t (a ∷ b ∷ []) zero all h =
      elim (reduce-range (family op) t (resolve d a) (resolve d b) h) [
        | inl e ↦ subst P e zero
        | inr (inl e) ↦ subst P e all.0
        | inr (inr e) ↦ subst P e all.1.0
      ]

module _ {F : Type 0} (g : ℕ → Ty) (fl : FloatOps F) (M : Machine F) (law : Identities fl M) where
  abbrev substitution : List (ℕ × Value F) → ℕ → Option (Value F)
  substitution d k = lookup k d

  try_reduce_lem :
      (d : List (ℕ × Value F)) {s s' : State M} (i : Instruction F) {w : Value F}
      → Related M (substitution d) s s'
      → try_reduce fl d i ≡ some w
      → outcome M s i ≡ (value_of M s'.env w, s.mem)
  unfolding try_reduce
  try_reduce_lem d {s} {s'} i {w} r h = go i.args h
    where
      go :
          (vs : List (Value F))
          → reduce_args fl d i.opcode i.type vs ≡ some w
          → M.exec i.opcode i.type (values_of M s.env vs) s.mem ≡ (value_of M s'.env w, s.mem)
      go [] e = absurd (cc)
      go (a ∷ []) e = absurd (cc)
      go (a ∷ b ∷ x ∷ vs) e = absurd (cc)
      go (a ∷ b ∷ []) e =
          rw (value_of-apply M a r, value_of-apply M b r)
            (reduce-exec fl M law s'.env i.opcode (family i.opcode) i.type (resolve d a)
              (resolve d b) s.mem refl e)

  abbrev Inv : Reduction F → State M → State M → List (Instruction F) → Type 0
  Inv d s s' is =
      Related M (substitution d.replacements) s s'
      × FreshIn d.replacements is
      × TableSettled d.replacements is
      × IsSsa g is

  substitution-insert :
      (d : List (ℕ × Value F)) (i : ℕ) (w : Value F) (k : ℕ)
      → extend (substitution d) i w k ≡ substitution (insert i w d) k
  substitution-insert d i w k = rw lookup-insert

  visit-Inv :
      (d : Reduction F) (s s' : State M) (i : Instruction F) (is : List (Instruction F))
      → Inv d s s' (i ∷ is)
      → Inv (visit fl d i).0 (step M s i) (step_emitted (visit fl) M s' (visit fl d i).1) is
  unfolding visit try_reduce
  visit-Inv d s s' i is (r, f, table, (t, typed, absent, settled, ssa)) =
      go (try_reduce fl d.replacements i) refl
    where
      later : TableSettled d.replacements is
      later = TableSettled-tail d.replacements i is table

      go :
          (o : Option (Value F))
          → try_reduce fl d.replacements i ≡ o
          → Inv
              (visit_with fl d i o).0
              (step M s i)
              (step_emitted (visit fl) M s' (visit_with fl d i o).1)
              is
      go none e = (Related-step M i r f.0 (λ k w h. (table k w h).0.0), f.1, later, ssa)
      go (some w) e = (
        Related-cong M (substitution-insert d.replacements i.key w)
            (Related-drop M i w r (try_reduce_lem d.replacements i r e)),
        FreshIn-insert d.replacements i.key w is f.1 absent,
        table-insert (λ v. Settled (v ∷ []) is) d.replacements i.key w later
            (try_reduce-elim fl (λ v. Settled (v ∷ []) is) d.replacements i.opcode i.type i.args
              (constant-Settled i.type (int (pos 0)) is)
              (AllHold-Settled d.replacements i.args is later settled.1) e),
        ssa,
      )

  -- On a machine with the algebraic laws that the pass relies on, the reduced function, run block
  -- after block from any state, leaves the memory that the function itself leaves.
  pub strength_reduce-exec :
      (f : Function F) (s : State M)
      → IsSsa g (flatten f.blocks)
      → (exec_function M s (run fl f).0).mem ≡ (exec_function M s f).mem
  unfolding run lookup
  strength_reduce-exec f s ssa =
      let before =
        Related-cong M {σ = λ _. none} {τ = substitution []} (λ k. refl) (Related-refl M s) in
      ap (λ x. x.mem) (exec-reassign_ids M s _)
      ∙ sym (ap (λ x. (exec_all M s x.1).mem) (flatten-sweep_blocks (visit fl) start f.blocks))
      ∙ sym
          (sweep_rule (visit fl) M Inv visit-Inv start s s (flatten f.blocks) (
            before,
            FreshIn-nil (Value F) (flatten f.blocks),
            (λ k w h. absurd (cc)),
            ssa,
          )).0.same_mem

module _ {F : Type 0} (g : ℕ → Ty) (fl : FloatOps F) where
  abbrev Keep : Reduction F → List (Instruction F) → Type 0
  Keep d is = TableSettled d.replacements is × TableTyped g d.replacements × IsSsa g is

  visit-Emits :
      (d : Reduction F) (i : Instruction F) (is : List (Instruction F))
      → Keep d (i ∷ is)
      → Emits (visit fl) g i is (visit fl d i).1 × Keep (visit fl d i).0 is
  unfolding visit try_reduce
  visit-Emits d i is (table, types, (t, typed, absent, settled, ssa)) =
      go (try_reduce fl d.replacements i) refl
    where
      later : TableSettled d.replacements is
      later = TableSettled-tail d.replacements i is table

      go :
          (o : Option (Value F))
          → try_reduce fl d.replacements i ≡ o
          → Emits (visit fl) g i is (visit_with fl d i o).1 × Keep (visit_with fl d i o).0 is
      go none e = (
        (
          refl,
          refl,
          resolve-TypedIn g d.replacements i.args types typed,
          resolve-Settled d.replacements i.args (i ∷ is) table settled,
        ),
        (later, types, ssa),
      )
      go (some w) e = (
        tt,
        (
          table-insert (λ v. Settled (v ∷ []) is) d.replacements i.key w later
              (try_reduce-elim fl (λ v. Settled (v ∷ []) is) d.replacements i.opcode i.type i.args
                (constant-Settled i.type (int (pos 0)) is)
                (AllHold-Settled d.replacements i.args is later settled.1) e),
          table-insert (Typed g) d.replacements i.key w types (
              try_reduce-elim fl (Typed g) d.replacements i.opcode i.type i.args tt
                (AllHold-Typed g d.replacements i.args types typed) e),
          ssa,
        ),
      )

  pub run-IsSsa :
      (f : Function F) → IsSsa g (flatten f.blocks) → IsSsa g (flatten (run fl f).0.blocks)
  unfolding run lookup
  run-IsSsa f ssa = reassign_ids-IsSsa g _ (
      subst (λ x. IsSsa g x.1) (flatten-sweep_blocks (visit fl) start f.blocks)
        (sweep-IsSsa (visit fl) g Keep visit-Emits start (flatten f.blocks)
          ((λ k w h. absurd (cc)), (λ k w h. absurd (cc)), ssa) ssa))

  sweep-reductions_count :
      (d : Reduction F) (is : List (Instruction F))
      → (sweep (visit fl) d is).0.reductions_count + length (sweep (visit fl) d is).1
        ≡ d.reductions_count + length is
  unfolding sweep visit
  sweep-reductions_count d [] = refl
  sweep-reductions_count d (i ∷ is) = ground (arith, sweep-reductions_count (visit fl d i).0 is)

  -- The pass reports the number of instructions that it removed, adds none, and numbers the rest
  -- 0, 1, 2, … in the order of the blocks.
  pub strength_reduce-count :
      (f : Function F)
      → ((run fl f).1 + count (run fl f).0.blocks ≡ count f.blocks)
        × NumberedFrom 0 (flatten (run fl f).0.blocks)
  unfolding run
  strength_reduce-count f =
      let e = flatten-sweep_blocks (visit fl) start f.blocks in
      let out = sweep_blocks (visit fl) start f.blocks in
      let n = reassign_ids-NumberedFrom (record f { blocks = out.1 }) in
      let c = sweep-reductions_count start (flatten f.blocks) in
      (
        omega (
          arith,
          n.2,
          count-length out.1,
          count-length f.blocks,
          c,
          ap (λ x. x.0.reductions_count) e,
          ap (λ x. length x.1) e,
        ),
        n.0,
      )
