-- ===== src/Compiler/Passes/DeadCode/Rounds.antt =====
-- One round of the pass, on the blocks and along a path (uhcr/compiler/passes/dead_code.py).
use uhcr.Prelude.{
  ℕ, suc, zero, ◌+◌, ◌≡◌, refl, false, List, [], ◌∷◌, ◌++◌, arith, ap, ap₂, sym, ◌∙◌, length,
  Bool-cases, inl, inr,
}
use uhcr.Compiler.Ir.Function.{Instruction, BasicBlock, flatten, count}
use uhcr.Compiler.Ir.Machine.{Machine, State, exec_all}
use uhcr.Compiler.Ir.Numbering.{count-length}
use uhcr.Compiler.Ir.Paths.{block_at, along}
use uhcr.Compiler.Passes.Sweep.{sweep, sweep_blocks, length-sweep-le, flatten-sweep_blocks}
use uhcr.Compiler.Passes.DeadCode.Defs.{collect_uses, is_dead, visit, round}
use uhcr.Compiler.Passes.DeadCode.Sound.{
  IsQuiet, Within, Within-append, Within-append_left, Within-append_right, Within-refl,
  collect_uses-append, kept, exec-kept,
}

module _ {F : Type 0} (used : List ℕ) where
  -- What is kept does not depend on the count.
  sweep-count :
      (n m : ℕ) (is : List (Instruction F))
      → (sweep (visit used) n is).1 ≡ (sweep (visit used) m is).1
  unfolding sweep visit
  sweep-count n m [] = refl
  sweep-count n m (i ∷ is) = elim (Bool-cases (is_dead used i)) [
    | inl e ↦ rw e (sweep-count (n + 1) (m + 1) is)
    | inr e ↦ rw e (ap (◌∷◌ i) (sweep-count n m is))
  ]

  kept-append : (is js : List (Instruction F)) → kept used (is ++ js) ≡ kept used is ++ kept used js
  unfolding sweep visit
  kept-append [] js = refl
  kept-append (i ∷ is) js = elim (Bool-cases (is_dead used i)) [
    | inl e ↦ rw e (
        sweep-count 1 0 (is ++ js)
        ∙ kept-append is js
        ∙ ap (λ l. l ++ kept used js) (sweep-count 0 1 is))
    | inr e ↦ rw e (ap (◌∷◌ i) (kept-append is js))
  ]

  block_at-sweep_blocks :
      (n : ℕ) (bs : List (BasicBlock F)) (p : ℕ)
      → block_at (sweep_blocks (visit used) n bs).1 p ≡ kept used (block_at bs p)
  unfolding sweep_blocks sweep
  block_at-sweep_blocks n [] p = refl
  block_at-sweep_blocks n (b ∷ bs) zero = sweep-count n 0 b.instructions
  block_at-sweep_blocks n (b ∷ bs) (suc p) =
      block_at-sweep_blocks (sweep (visit used) n b.instructions).0 bs p

  along-sweep_blocks :
      (n : ℕ) (bs : List (BasicBlock F)) (ps : List ℕ)
      → along (sweep_blocks (visit used) n bs).1 ps ≡ kept used (along bs ps)
  unfolding sweep
  along-sweep_blocks n bs [] = refl
  along-sweep_blocks n bs (p ∷ ps) =
      ap₂ ◌++◌ (block_at-sweep_blocks n bs p) (along-sweep_blocks n bs ps)
      ∙ sym (kept-append (block_at bs p) (along bs ps))

  -- The operands along a path are operands of the blocks.
  block_at-Within :
      (bs : List (BasicBlock F)) (p : ℕ)
      → Within (collect_uses (flatten bs)) used
      → Within (collect_uses (block_at bs p)) used
  block_at-Within [] p w = tt
  block_at-Within (b ∷ bs) zero w =
      Within-append_left (collect_uses b.instructions) (collect_uses (flatten bs)) used
        (rw (collect_uses-append b.instructions (flatten bs)) at w)
  block_at-Within (b ∷ bs) (suc p) w = block_at-Within bs p (
      Within-append_right (collect_uses b.instructions) (collect_uses (flatten bs)) used
        (rw (collect_uses-append b.instructions (flatten bs)) at w))

  along-Within :
      (bs : List (BasicBlock F)) (ps : List ℕ)
      → Within (collect_uses (flatten bs)) used
      → Within (collect_uses (along bs ps)) used
  along-Within bs [] w = tt
  along-Within bs (p ∷ ps) w = rw (collect_uses-append (block_at bs p) (along bs ps)) (
      Within-append (collect_uses (block_at bs p)) (collect_uses (along bs ps)) used
        (block_at-Within bs p w) (along-Within bs ps w))

  -- The count grows by the number of instructions that go.
  pub sweep-length :
      (n : ℕ) (is : List (Instruction F))
      → (sweep (visit used) n is).0 + length (sweep (visit used) n is).1 ≡ n + length is
  unfolding sweep visit
  sweep-length n [] = refl
  sweep-length n (i ∷ is) = ground (arith, sweep-length n is, sweep-length (n + 1) is)

  abbrev pub AllAlive : List (Instruction F) → Type 0
  AllAlive [] = Unit
  AllAlive (i ∷ is) = (is_dead used i ≡ false) × AllAlive is

  -- A sweep that keeps the number of instructions keeps them all, and none is dead.
  pub sweep-AllAlive :
      (n : ℕ) (is : List (Instruction F))
      → length (sweep (visit used) n is).1 ≡ length is
      → ((sweep (visit used) n is).1 ≡ is) × AllAlive is
  unfolding sweep visit
  sweep-AllAlive n [] h = (refl, tt)
  sweep-AllAlive n (i ∷ is) h = elim (Bool-cases (is_dead used i)) [
    | inl e ↦ absurd (ground (arith, length-sweep-le (visit used) (n + 1) is))
    | inr e ↦
        let shorter : length (sweep (visit used) n is).1 ≡ length is = ground arith in
        let (same, alive) = sweep-AllAlive n is shorter in rw e (ap (◌∷◌ i) same, (refl, alive))
  ]

module _ {F : Type 0} where
  pub round-count : (bs : List (BasicBlock F)) → (round bs).0 + count (round bs).1 ≡ count bs
  unfolding round
  round-count bs =
      let v = visit (collect_uses (flatten bs)) in
      let e = flatten-sweep_blocks v 0 bs in
      omega (
        arith,
        count-length bs,
        count-length (sweep_blocks v 0 bs).1,
        sweep-length (collect_uses (flatten bs)) 0 (flatten bs),
        ap (λ x. x.0) e,
        ap (λ x. length x.1) e,
      )

  pub exec_path-round :
      (M : Machine F)
      → IsQuiet M
      → (s : State M) (bs : List (BasicBlock F)) (ps : List ℕ)
      → (exec_all M s (along (round bs).1 ps)).mem ≡ (exec_all M s (along bs ps)).mem
  unfolding round
  exec_path-round M quiet s bs ps =
      let used = collect_uses (flatten bs) in
      ap (λ l. (exec_all M s l).mem) (along-sweep_blocks used 0 bs ps)
      ∙ exec-kept M used quiet s (along bs ps) (along-Within used bs ps (Within-refl used))

  pub exec_all-round :
      (M : Machine F)
      → IsQuiet M
      → (s : State M) (bs : List (BasicBlock F))
      → (exec_all M s (flatten (round bs).1)).mem ≡ (exec_all M s (flatten bs)).mem
  unfolding round
  exec_all-round M quiet s bs =
      let used = collect_uses (flatten bs) in
      sym (ap (λ x. (exec_all M s x.1).mem) (flatten-sweep_blocks (visit used) 0 bs))
      ∙ exec-kept M used quiet s (flatten bs) (Within-refl used)
