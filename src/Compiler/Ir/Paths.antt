-- ===== src/Compiler/Ir/Paths.antt =====
-- Runs of a function along any path through its blocks, jumps and loops included (the control flow of
-- uhcr/compiler/ir.py). Which path is taken is part of what the machine's memory shows.
use uhcr.Prelude.{ℕ, zero, suc, ◌+◌, ◌≡◌, refl, List, [], ◌∷◌, ◌++◌, sym, ◌∙◌, length}
use uhcr.Compiler.Ir.Function.{Instruction, BasicBlock, Function, renumber_blocks, reassign_ids}
use uhcr.Compiler.Ir.Machine.{Machine, State, exec_all, exec_all-append}
use uhcr.Compiler.Ir.Numbering.{exec_all-renumber}

module _ {F : Type 0} where
  -- The instructions of the block at a position.
  abbrev pub block_at : List (BasicBlock F) → ℕ → List (Instruction F)
  block_at [] p = []
  block_at (b ∷ bs) zero = b.instructions
  block_at (b ∷ bs) (suc p) = block_at bs p

  abbrev pub along : List (BasicBlock F) → List ℕ → List (Instruction F)
  along bs [] = []
  along bs (p ∷ ps) = block_at bs p ++ along bs ps

  module _ (M : Machine F) where
    exec-block_at-renumber :
        (s : State M) (n : ℕ) (bs : List (BasicBlock F)) (p : ℕ)
        → exec_all M s (block_at (renumber_blocks n bs) p) ≡ exec_all M s (block_at bs p)
    exec-block_at-renumber s n [] p = refl
    exec-block_at-renumber s n (b ∷ bs) zero = exec_all-renumber M s n b.instructions
    exec-block_at-renumber s n (b ∷ bs) (suc p) =
        exec-block_at-renumber s (n + length b.instructions) bs p

    exec-along-renumber :
        (s : State M) (n : ℕ) (bs : List (BasicBlock F)) (ps : List ℕ)
        → exec_all M s (along (renumber_blocks n bs) ps) ≡ exec_all M s (along bs ps)
    exec-along-renumber s n bs [] = refl
    exec-along-renumber s n bs (p ∷ ps) =
        exec_all-append M s (block_at (renumber_blocks n bs) p) (along (renumber_blocks n bs) ps)
        ∙ rw (exec-block_at-renumber s n bs p) (
            exec-along-renumber (exec_all M s (block_at bs p)) n bs ps
            ∙ sym (exec_all-append M s (block_at bs p) (along bs ps)))

    -- A run along a path, from block to block.
    abbrev pub exec_path : State M → Function F → List ℕ → State M
    exec_path s f ps = exec_all M s (along f.blocks ps)

    pub exec_path-reassign_ids :
        (s : State M) (f : Function F) (ps : List ℕ)
        → exec_path s (reassign_ids f) ps ≡ exec_path s f ps
    unfolding reassign_ids
    exec_path-reassign_ids s f ps = exec-along-renumber s 0 f.blocks ps
