-- ===== src/Compiler/Passes/Pipeline/Sound.antt =====
-- A pipeline of sound passes is sound, and the default pipeline is one
-- (uhcr/compiler/passes/pipeline.py).
use uhcr.Prelude.{ℕ, zero, suc, ◌+◌, ◌≡◌, refl, false, List, [], ◌∷◌, ◌∙◌, Bool-cases, inl, inr}
use uhcr.Compiler.Ir.Types.{Ty}
use uhcr.Compiler.Ir.Function.{Function, flatten}
use uhcr.Compiler.Ir.Machine.{Machine, State, IsSsa}
use uhcr.Compiler.Ir.Numbering.{exec_function}
use uhcr.Compiler.Passes.Numbers.{FloatOps}
use uhcr.Compiler.Passes.ConstantFolding
use uhcr.Compiler.Passes.ConstantFolding.Sound.{Evaluates}
use uhcr.Compiler.Passes.StrengthReduction
use uhcr.Compiler.Passes.StrengthReduction.Sound.{Identities}
use uhcr.Compiler.Passes.DeadCode
use uhcr.Compiler.Passes.DeadCode.Sound.{IsQuiet}
use uhcr.Compiler.Passes.Cse
use uhcr.Compiler.Passes.Cse.Sound.{IsPure}
use uhcr.Compiler.Passes.Pipeline.Defs.{
  Pass, Progress, apply_pass, apply_passes, iterate, run, constant_fold, strength_reduce,
  dead_code_eliminate, cse, default_passes, run_default_passes,
}

module _ {F : Type 0} (M : Machine F) (g : ℕ → Ty) where
  -- A pass that keeps straight-line code in single assignment, and what such code does.
  record IsSound (p : Pass F) : Type 0 where
    pub keeps_ssa :
        (f : Function F) → IsSsa g (flatten f.blocks) → IsSsa g (flatten (p.run f).blocks)
    pub same_mem :
        (f : Function F) (s : State M)
        → IsSsa g (flatten f.blocks)
        → (exec_function M s (p.run f)).mem ≡ (exec_function M s f).mem

  abbrev AllSound : List (Pass F) → Type 0
  AllSound [] = Unit
  AllSound (p ∷ ps) = IsSound p × AllSound ps

  -- The function reached stands for the one at the start.
  abbrev Stands : Function F → Function F → Type 0
  Stands f f' =
      IsSsa g (flatten f'.blocks)
      × ((s : State M) → (exec_function M s f').mem ≡ (exec_function M s f).mem)

  apply_passes-Stands :
      (f : Function F) (n : ℕ) (s : Progress F) (ps : List (Pass F))
      → AllSound ps
      → Stands f s.func
      → Stands f (apply_passes n s ps).func
  unfolding apply_passes apply_pass
  apply_passes-Stands f n s [] a h = h
  apply_passes-Stands f n s (p ∷ ps) a h =
      apply_passes-Stands f n (apply_pass n s p) ps a.1
        (a.0.keeps_ssa s.func h.0, λ st. a.0.same_mem s.func st h.0 ∙ h.1 st)

  iterate-Stands :
      (f : Function F) (left n : ℕ) (s : Progress F) (ps : List (Pass F))
      → AllSound ps
      → Stands f s.func
      → Stands f (iterate left n s ps).func
  unfolding iterate apply_passes
  iterate-Stands f zero n s ps a h = h
  iterate-Stands f (suc left) n s ps a h =
      let s' = apply_passes n (record s { changed = false }) ps in
      let next = apply_passes-Stands f n (record s { changed = false }) ps a h in
      elim (Bool-cases s'.changed) [
        | inl e ↦ rw e (iterate-Stands f left (n + 1) s' ps a next)
        | inr e ↦ rw e next
      ]

  run_passes-IsSound :
      (ps : List (Pass F)) (f : Function F) (max_iterations : ℕ) (s : State M)
      → AllSound ps
      → IsSsa g (flatten f.blocks)
      → (exec_function M s (run ps f max_iterations).func).mem ≡ (exec_function M s f).mem
  unfolding run
  run_passes-IsSound ps f n s a ssa = (iterate-Stands f n 0 _ ps a (ssa, λ st. refl)).1 s

  -- On a machine with the laws that the four passes rely on, `run_default_passes` keeps the memory
  -- that straight-line code in single assignment leaves, from any state.
  pub run_default_passes-exec :
      (fl : FloatOps F) (f : Function F) (s : State M)
      → Evaluates fl M
      → Identities fl M
      → IsQuiet M
      → IsPure fl M
      → IsSsa g (flatten f.blocks)
      → (exec_function M s (run_default_passes fl f)).mem ≡ (exec_function M s f).mem
  unfolding run_default_passes
  run_default_passes-exec fl f s evaluates identities quiet pure ssa =
      let folds : IsSound (constant_fold fl) = record {
        keeps_ssa = ConstantFolding.Run.run-IsSsa g fl;
        same_mem = ConstantFolding.Run.constant_fold-exec g fl M evaluates;
      } in
      let reduces : IsSound (strength_reduce fl) = record {
        keeps_ssa = StrengthReduction.Run.run-IsSsa g fl;
        same_mem = StrengthReduction.Run.strength_reduce-exec g fl M identities;
      } in
      let eliminates : IsSound (dead_code_eliminate fl) = record {
        keeps_ssa = DeadCode.Run.run-IsSsa g;
        same_mem = λ h st _. DeadCode.Run.dead_code_eliminate-exec M quiet h st;
      } in
      let merges : IsSound (cse fl) = record {
        keeps_ssa = Cse.Run.run-IsSsa g fl;
        same_mem = Cse.Run.cse-exec g fl M pure;
      } in
      run_passes-IsSound (default_passes fl) f 3 s
        (folds, (reduces, (eliminates, (merges, (eliminates, tt))))) ssa
