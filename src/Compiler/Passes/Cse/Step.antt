-- ===== src/Compiler/Passes/Cse/Step.antt =====
-- One visit of the pass keeps the runs before and after it related (uhcr/compiler/passes/cse.py).
use uhcr.Prelude.{
  ℕ, ◌≡◌, Bool, false, ◌||◌, List, [], ◌∷◌, Option, none, some, ap, sym, ◌∙◌, nat_eq, nat_beq_refl,
  ◌==◌,
}
use uhcr.Prelude.Dict.{lookup, insert, lookup-insert}
use uhcr.Compiler.Ir.Types.{Ty, type_eq, void}
use uhcr.Compiler.Ir.Function.{Value, result_of, Instruction}
use uhcr.Compiler.Ir.Machine.{Machine, State, values_of, outcome, step, Settled, IsSsa}
use uhcr.Compiler.Passes.Numbers.{FloatOps}
use uhcr.Compiler.Passes.Substitution.{
  extend, Related, Related-cong, Related-step, Related-drop, outcome-rewrite, values_of-update,
}
use uhcr.Compiler.Passes.Tables.{TableSettled, resolve-Settled, TableSettled-tail, table-insert}
use uhcr.Compiler.Passes.Sweep.{FreshIn, FreshIn-insert}
use uhcr.Compiler.Passes.Cse.Defs.{no_cse, Elimination, find, record_or_replace, resolved}
use uhcr.Compiler.Passes.Cse.Sound.{IsPure, IsTrue, AllTrue, find-holds}
use uhcr.Compiler.Passes.Cse.Entries.{
  EntriesSettled, EntriesSettled-tail, Absent-Settled, find-Settled, AllTrue-step,
}

module _ {F : Type 0} (fl : FloatOps F) where
  abbrev pub excluded : Instruction F → Bool
  excluded i = no_cse i.opcode || i.type == void

  abbrev pub substitution : List (ℕ × Value F) → ℕ → Option (Value F)
  substitution d k = lookup k d

  substitution-insert :
      (d : List (ℕ × Value F)) (i : ℕ) (w : Value F) (k : ℕ)
      → extend (substitution d) i w k ≡ substitution (insert i w d) k
  substitution-insert d i w k = rw lookup-insert

  module _ (g : ℕ → Ty) (M : Machine F) (law : IsPure fl M) where
    abbrev pub Inv : Elimination F → State M → State M → List (Instruction F) → Type 0
    Inv d s s' is =
        Related M (substitution d.replacements) s s'
        × FreshIn d.replacements is
        × TableSettled d.replacements is
        × EntriesSettled d.expr_map is
        × AllTrue fl M law s' d.expr_map
        × IsSsa g is

    module _ (d : Elimination F) (s s' : State M) (i : Instruction F) (is : List (Instruction F))
        (h : Inv d s s' (i ∷ is)) where
      emit-Related : Related M (substitution d.replacements) (step M s i) (step M s' (resolved d i))
      emit-Related = Related-step M i h.0 h.1.0 (λ k w e. (h.2 k w e).0.0)

      args-Settled : Settled (resolved d i).args (i ∷ is)
      args-Settled = resolve-Settled d.replacements i.args (i ∷ is) h.2 h.5.3

      -- The instruction is no candidate.
      pub skip-Inv : Inv d (step M s i) (step M s' (resolved d i)) is
      skip-Inv = (
        emit-Related,
        h.1.1,
        TableSettled-tail d.replacements i is h.2,
        EntriesSettled-tail d.expr_map i is h.3,
        AllTrue-step fl M law s' i (resolved d i).args d.expr_map is h.3 h.4,
        h.5.4,
      )

      -- The instruction repeats an entry.
      pub replace-Inv :
          (first : ℕ)
          → find fl d.expr_map (resolved d i) ≡ some first
          → Inv (record_or_replace d (resolved d i) (some first)).0 (step M s i) s' is
      replace-Inv first e = (
        Related-cong M (substitution-insert d.replacements i.key (result_of first i.type)) (
            Related-drop M i (result_of first i.type) h.0 (
              outcome-rewrite M i h.0
              ∙ find-holds fl M law s' d.expr_map (resolved d i) h.4 e
              ∙ ap (λ m. (s'.env first, m)) (sym h.0.same_mem))),
        FreshIn-insert d.replacements i.key (result_of first i.type) is h.1.1 h.5.2,
        table-insert (λ v. Settled (v ∷ []) is) d.replacements i.key (result_of first i.type)
            (TableSettled-tail d.replacements i is h.2)
            (find-Settled fl d.expr_map (resolved d i) i.type is
              (EntriesSettled-tail d.expr_map i is h.3) e),
        EntriesSettled-tail d.expr_map i is h.3,
        h.4,
        h.5.4,
      )

      -- The instruction becomes an entry.
      entry-IsTrue :
          no_cse i.opcode ≡ false
          → (i.type == void) ≡ false
          → IsTrue fl M law (step M s' (resolved d i)) (record {
            opcode = i.opcode;
            type = i.type;
            operands = (resolved d i).args;
            first = i.key;
          })
      unfolding step
      entry-IsTrue a b = record {
        excluded = a;
        valued = b;
        holds = λ m.
            rw
              (
                values_of-update M s'.env i.key (outcome M s' (resolved d i)).0 (resolved d i).args
                    args-Settled.0,
                nat_beq_refl i.key,
              )
              (law.pure i.opcode i.type (values_of M s'.env (resolved d i).args) m s'.mem a b);
      }

      pub record-Inv :
          no_cse i.opcode ≡ false
          → (i.type == void) ≡ false
          → Inv
              (record_or_replace d (resolved d i) none).0
              (step M s i)
              (step M s' (resolved d i))
              is
      record-Inv a b = (
        emit-Related,
        h.1.1,
        TableSettled-tail d.replacements i is h.2,
        (
          Absent-Settled i.key i.type (resolved d i).args is h.5.2 args-Settled.1,
          EntriesSettled-tail d.expr_map i is h.3,
        ),
        (entry-IsTrue a b, AllTrue-step fl M law s' i (resolved d i).args d.expr_map is h.3 h.4),
        h.5.4,
      )
