-- ===== src/Compiler/Passes/Cse/Run.antt =====
-- `CommonSubexpressionEliminationPass.run` on a whole function (uhcr/compiler/passes/cse.py).
use uhcr.Prelude.{
  ℕ, ◌≡◌, refl, false, List, [], ◌∷◌, Option, none, some, ap, sym, ◌∙◌, subst, nat_eq, Bool-cases,
  inl, inr, ◌==◌, or_left, or_right,
}
use uhcr.Prelude.Dict.{lookup}
use uhcr.Compiler.Ir.Types.{Ty, type_eq, void}
use uhcr.Compiler.Ir.Function.{Value, result_of, Instruction, Function, flatten}
use uhcr.Compiler.Ir.Machine.{Machine, State, step, Typed, Settled, IsSsa, exec_all}
use uhcr.Compiler.Ir.Numbering.{exec_function, exec-reassign_ids, reassign_ids-IsSsa}
use uhcr.Compiler.Passes.Numbers.{FloatOps}
use uhcr.Compiler.Passes.Substitution.{Related-refl, Related-cong}
use uhcr.Compiler.Passes.Tables.{
  TableSettled, TableTyped, resolve-Settled, TableSettled-tail, table-insert, resolve-TypedIn,
}
use uhcr.Compiler.Passes.Sweep.{
  flatten-sweep_blocks, sweep_rule, sweep-IsSsa, Emits, FreshIn-nil, step_emitted,
}
use uhcr.Compiler.Passes.Cse.Defs.{
  no_cse, Elimination, start, find, record_or_replace, resolved, visit, run,
}
use uhcr.Compiler.Passes.Cse.Sound.{IsPure}
use uhcr.Compiler.Passes.Cse.Entries.{
  EntriesSettled, EntriesTyped, EntriesSettled-tail, Absent-Settled, find-Settled, find-Typed,
}
use uhcr.Compiler.Passes.Cse.Step.{excluded, substitution, Inv, skip-Inv, replace-Inv, record-Inv}

module _ {F : Type 0} (g : ℕ → Ty) (fl : FloatOps F) where
  module _ (M : Machine F) (law : IsPure fl M) where
    visit-Inv :
        (d : Elimination F) (s s' : State M) (i : Instruction F) (is : List (Instruction F))
        → Inv fl g M law d s s' (i ∷ is)
        → Inv fl g M law
            (visit fl d i).0
            (step M s i)
            (step_emitted (visit fl) M s' (visit fl d i).1)
            is
    unfolding visit
    visit-Inv d s s' i is h = elim (Bool-cases (excluded fl i)) [
      | inl e ↦ rw e (skip-Inv fl g M law d s s' i is h)
      | inr e ↦ rw e (go (find fl d.expr_map (resolved d i)) refl (or_left _ _ e) (or_right _ _ e))
    ]
      where
        go :
            (o : Option ℕ)
            → find fl d.expr_map (resolved d i) ≡ o
            → no_cse i.opcode ≡ false
            → (i.type == void) ≡ false
            → Inv fl g M law
                (record_or_replace d (resolved d i) o).0
                (step M s i)
                (step_emitted (visit fl) M s' (record_or_replace d (resolved d i) o).1)
                is
        go none e a b = record-Inv fl g M law d s s' i is h a b
        go (some first) e a b = replace-Inv fl g M law d s s' i is h first e

    -- On a machine where the opcodes that the pass does not exclude compute their value from their
    -- operands alone, and where numbers that Python finds equal are one value, the function without
    -- its repeated instructions, run block after block from any state, leaves the memory that the
    -- function itself leaves.
    pub cse-exec :
        (f : Function F) (s : State M)
        → IsSsa g (flatten f.blocks)
        → (exec_function M s (run fl f).0).mem ≡ (exec_function M s f).mem
    unfolding run lookup
    cse-exec f s ssa =
        let before =
          Related-cong M {σ = λ _. none} {τ = substitution fl []} (λ k. refl) (Related-refl M s) in
        ap (λ x. x.mem) (exec-reassign_ids M s _)
        ∙ sym (ap (λ x. (exec_all M s x.1).mem) (flatten-sweep_blocks (visit fl) start f.blocks))
        ∙ sym
            (sweep_rule (visit fl) M (Inv fl g M law) visit-Inv start s s (flatten f.blocks) (
              before,
              FreshIn-nil (Value F) (flatten f.blocks),
              (λ k w h. absurd (cc)),
              tt,
              tt,
              ssa,
            )).0.same_mem

  abbrev Keep : Elimination F → List (Instruction F) → Type 0
  Keep d is =
      TableSettled d.replacements is
      × TableTyped g d.replacements
      × EntriesSettled d.expr_map is
      × EntriesTyped g d.expr_map
      × IsSsa g is

  visit-Emits :
      (d : Elimination F) (i : Instruction F) (is : List (Instruction F))
      → Keep d (i ∷ is)
      → Emits (visit fl) g i is (visit fl d i).1 × Keep (visit fl d i).0 is
  unfolding visit
  visit-Emits d i is (table, types, entries, etypes, (t, typed, absent, settled, ssa)) =
      elim (Bool-cases (excluded fl i)) [
        | inl e ↦ rw e (emitted, (later, types, elater, etypes, ssa))
        | inr e ↦ rw e (go (find fl d.expr_map (resolved d i)) refl)
      ]
    where
      later : TableSettled d.replacements is
      later = TableSettled-tail d.replacements i is table

      elater : EntriesSettled d.expr_map is
      elater = EntriesSettled-tail d.expr_map i is entries

      args : Settled (resolved d i).args (i ∷ is)
      args = resolve-Settled d.replacements i.args (i ∷ is) table settled

      emitted : Emits (visit fl) g i is (some (resolved d i))
      emitted = (refl, refl, resolve-TypedIn g d.replacements i.args types typed, args)

      go :
          (o : Option ℕ)
          → find fl d.expr_map (resolved d i) ≡ o
          → Emits (visit fl) g i is (record_or_replace d (resolved d i) o).1
            × Keep (record_or_replace d (resolved d i) o).0 is
      go none e = (
        emitted,
        (
          later,
          types,
          (Absent-Settled i.key i.type (resolved d i).args is absent args.1, elater),
          (t, etypes),
          ssa,
        ),
      )
      go (some first) e = (
        tt,
        (
          table-insert (λ v. Settled (v ∷ []) is) d.replacements i.key (result_of first i.type)
              later (find-Settled fl d.expr_map (resolved d i) i.type is elater e),
          table-insert (Typed g) d.replacements i.key (result_of first i.type) types
              (find-Typed fl g d.expr_map (resolved d i) etypes e),
          elater,
          etypes,
          ssa,
        ),
      )

  pub run-IsSsa :
      (f : Function F) → IsSsa g (flatten f.blocks) → IsSsa g (flatten (run fl f).0.blocks)
  unfolding run lookup
  run-IsSsa f ssa = reassign_ids-IsSsa g _ (
      subst (λ x. IsSsa g x.1) (flatten-sweep_blocks (visit fl) start f.blocks)
        (sweep-IsSsa (visit fl) g Keep visit-Emits start (flatten f.blocks)
          ((λ k w h. absurd (cc)), (λ k w h. absurd (cc)), tt, tt, ssa) ssa))
