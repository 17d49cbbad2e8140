-- ===== src/Compiler/Passes/DeadCode/Run.antt =====
-- `DeadCodeEliminationPass.run`: the rounds end, nothing dead is left, and every run of the function
-- leaves the same memory (uhcr/compiler/passes/dead_code.py).
use uhcr.Prelude.{
  ℕ, suc, zero, ◌+◌, ◌<◌, ◌≡◌, refl, List, [], ◌∷◌, ◌++◌, arith, nat_beq, nat_beq_iff, ap, sym, ◌∙◌,
  subst, length, Bool-cases, inl, inr,
}
use uhcr.Compiler.Ir.Types.{Ty}
use uhcr.Compiler.Ir.Function.{
  Instruction, BasicBlock, Function, flatten, count, renumber, reassign_ids,
}
use uhcr.Compiler.Ir.Machine.{Machine, State, exec_all, IsSsa}
use uhcr.Compiler.Ir.Numbering.{
  flatten-renumber_blocks, reassign_ids-NumberedFrom, reassign_ids-IsSsa, exec_function,
  exec-reassign_ids,
}
use uhcr.Compiler.Ir.Paths.{along, exec_path, exec_path-reassign_ids}
use uhcr.Compiler.Passes.Sweep.{sweep, flatten-sweep_blocks, sweep-IsSsa, Emits}
use uhcr.Compiler.Passes.DeadCode.Defs.{
  references, collect_uses, is_dead, visit, round, eliminate, run,
}
use uhcr.Compiler.Passes.DeadCode.Sound.{IsQuiet}
use uhcr.Compiler.Passes.DeadCode.Rounds.{
  AllAlive, sweep-AllAlive, sweep-length, round-count, exec_path-round, exec_all-round,
}

module _ {F : Type 0} where
  -- No instruction of the code is dead by the uses of the code itself.
  abbrev pub NoneDead : List (Instruction F) → Type 0
  NoneDead is = AllAlive (collect_uses is) is

  -- A round that removes nothing leaves the code as it is, and nothing of it is dead.
  round_zero : (bs : List (BasicBlock F)) → (round bs).0 ≡ 0 → NoneDead (flatten (round bs).1)
  unfolding round
  round_zero bs h =
      let used = collect_uses (flatten bs) in
      let e = flatten-sweep_blocks (visit used) 0 bs in
      let full : length (sweep (visit used) 0 (flatten bs)).1 ≡ length (flatten bs) =
        omega (arith, sweep-length used 0 (flatten bs), ap (λ x. x.0) e, h) in
      let (same, alive) = sweep-AllAlive used 0 (flatten bs) full in
      subst NoneDead (sym (sym (ap (λ x. x.1) e) ∙ same)) alive

  -- With fuel above the number of instructions the rounds end by their own test.
  eliminate-NoneDead :
      (fuel : ℕ) (bs : List (BasicBlock F)) (n : ℕ)
      → count bs < fuel
      → NoneDead (flatten (eliminate fuel bs n).0)
  unfolding eliminate
  eliminate-NoneDead zero bs n h = absurd (omega arith)
  eliminate-NoneDead (suc fuel) bs n h = elim (Bool-cases (nat_beq (round bs).0 0)) [
    | inl e ↦ rw e (round_zero bs ((nat_beq_iff _ _).0 e))
    | inr e ↦ rw e (eliminate-NoneDead fuel (round bs).1 _ (ground (arith, round-count bs)))
  ]

  eliminate-count :
      (fuel : ℕ) (bs : List (BasicBlock F)) (n : ℕ)
      → (eliminate fuel bs n).1 + count (eliminate fuel bs n).0 ≡ n + count bs
  unfolding eliminate
  eliminate-count zero bs n = refl
  eliminate-count (suc fuel) bs n =
      ground (arith, round-count bs, eliminate-count fuel (round bs).1 (n + (round bs).0))

  module _ (M : Machine F) (quiet : IsQuiet M) where
    exec-eliminate :
        (fuel : ℕ) (bs : List (BasicBlock F)) (n : ℕ) (s : State M) (ps : List ℕ)
        → (exec_all M s (along (eliminate fuel bs n).0 ps)).mem ≡ (exec_all M s (along bs ps)).mem
    unfolding eliminate
    exec-eliminate zero bs n s ps = refl
    exec-eliminate (suc fuel) bs n s ps = elim (Bool-cases (nat_beq (round bs).0 0)) [
      | inl e ↦ rw e (exec_path-round M quiet s bs ps)
      | inr e ↦ rw e (
          exec-eliminate fuel (round bs).1 (n + (round bs).0) s ps
          ∙ exec_path-round M quiet s bs ps)
    ]

    exec_function-eliminate :
        (fuel : ℕ) (bs : List (BasicBlock F)) (n : ℕ) (s : State M)
        → (exec_all M s (flatten (eliminate fuel bs n).0)).mem ≡ (exec_all M s (flatten bs)).mem
    unfolding eliminate
    exec_function-eliminate zero bs n s = refl
    exec_function-eliminate (suc fuel) bs n s = elim (Bool-cases (nat_beq (round bs).0 0)) [
      | inl e ↦ rw e (exec_all-round M quiet s bs)
      | inr e ↦ rw e (
          exec_function-eliminate fuel (round bs).1 (n + (round bs).0) s
          ∙ exec_all-round M quiet s bs)
    ]

    -- On a machine where the opcodes that the pass does not list leave the memory alone, a run of the
    -- function along any path through its blocks leaves the memory that the same path leaves before.
    pub dead_code_eliminate-exec_path :
        (f : Function F) (s : State M) (ps : List ℕ)
        → (exec_path M s (run f).0 ps).mem ≡ (exec_path M s f ps).mem
    unfolding run
    dead_code_eliminate-exec_path f s ps =
        ap (λ x. x.mem) (exec_path-reassign_ids M s _ ps)
        ∙ exec-eliminate (suc (count f.blocks)) f.blocks 0 s ps

    pub dead_code_eliminate-exec :
        (f : Function F) (s : State M)
        → (exec_function M s (run f).0).mem ≡ (exec_function M s f).mem
    unfolding run
    dead_code_eliminate-exec f s =
        ap (λ x. x.mem) (exec-reassign_ids M s _)
        ∙ exec_function-eliminate (suc (count f.blocks)) f.blocks 0 s

  collect_uses-renumber :
      (n : ℕ) (is : List (Instruction F)) → collect_uses (renumber n is) ≡ collect_uses is
  collect_uses-renumber n [] = refl
  collect_uses-renumber n (i ∷ is) =
      ap (◌++◌ (references i.args)) (collect_uses-renumber (suc n) is)

  AllAlive-renumber :
      (used : List ℕ) (n : ℕ) (is : List (Instruction F))
      → AllAlive used is
      → AllAlive used (renumber n is)
  unfolding is_dead
  AllAlive-renumber used n [] a = tt
  AllAlive-renumber used n (i ∷ is) a = (a.0, AllAlive-renumber used (suc n) is a.1)

  -- The rounds end with the fuel that `run` gives: in the result no instruction is dead, by the uses
  -- of the result itself; and the pass reports the number of instructions that it removed.
  pub dead_code_eliminate-NoneDead :
      (f : Function F)
      → NoneDead (flatten (run f).0.blocks) × ((run f).1 + count (run f).0.blocks ≡ count f.blocks)
  unfolding run reassign_ids
  dead_code_eliminate-NoneDead f =
      let fuel = suc (count f.blocks) in
      let out = (eliminate fuel f.blocks 0).0 in
      let alive = eliminate-NoneDead fuel f.blocks 0 (omega arith) in
      (
        rw (flatten-renumber_blocks 0 out, collect_uses-renumber 0 (flatten out))
            (AllAlive-renumber (collect_uses (flatten out)) 0 (flatten out) alive),
        omega (
          arith,
          (reassign_ids-NumberedFrom (record f { blocks = out })).2,
          eliminate-count fuel f.blocks 0,
        ),
      )

  module _ (g : ℕ → Ty) where
    visit-Emits :
        (used : List ℕ) (n : ℕ) (i : Instruction F) (is : List (Instruction F))
        → IsSsa g (i ∷ is)
        → Emits (visit used) g i is (visit used n i).1 × IsSsa g is
    unfolding visit
    visit-Emits used n i is (t, typed, absent, settled, ssa) = elim (Bool-cases (is_dead used i)) [
      | inl e ↦ rw e (tt, ssa)
      | inr e ↦ rw e ((refl, refl, typed, settled), ssa)
    ]

    round-IsSsa : (bs : List (BasicBlock F)) → IsSsa g (flatten bs) → IsSsa g (flatten (round bs).1)
    unfolding round
    round-IsSsa bs ssa =
        let used = collect_uses (flatten bs) in
        subst (λ x. IsSsa g x.1) (flatten-sweep_blocks (visit used) 0 bs)
          (sweep-IsSsa (visit used) g (λ _. IsSsa g) (visit-Emits used) 0 (flatten bs) ssa ssa)

    eliminate-IsSsa :
        (fuel : ℕ) (bs : List (BasicBlock F)) (n : ℕ)
        → IsSsa g (flatten bs)
        → IsSsa g (flatten (eliminate fuel bs n).0)
    unfolding eliminate
    eliminate-IsSsa zero bs n ssa = ssa
    eliminate-IsSsa (suc fuel) bs n ssa = elim (Bool-cases (nat_beq (round bs).0 0)) [
      | inl e ↦ rw e (round-IsSsa bs ssa)
      | inr e ↦ rw e (eliminate-IsSsa fuel (round bs).1 _ (round-IsSsa bs ssa))
    ]

    pub run-IsSsa :
        (f : Function F) → IsSsa g (flatten f.blocks) → IsSsa g (flatten (run f).0.blocks)
    unfolding run
    run-IsSsa f ssa = reassign_ids-IsSsa g _ (eliminate-IsSsa (suc (count f.blocks)) f.blocks 0 ssa)
