-- ===== src/Compiler/Ir/Numbering.antt =====
-- `_reassign_ids`, which ends every pass of uhcr/compiler/passes: the printed numbers of the
-- instructions become 0, 1, 2, … in the order of the blocks, and nothing else changes.
use uhcr.Prelude.{
  ℕ, suc, ◌+◌, ◌≡◌, refl, List, [], ◌∷◌, ◌++◌, some, ap, sym, ◌∙◌, arith, length, length-append,
}
use uhcr.Compiler.Ir.Types.{Ty}
use uhcr.Compiler.Ir.Function.{
  Value, Instruction, BasicBlock, Function, flatten, renumber, renumber_blocks, count, reassign_ids,
}
use uhcr.Compiler.Ir.Machine.{Machine, State, step, exec_all, Absent, Settled, IsSsa}

module _ {F : Type 0} where
  renumber-append :
      (n : ℕ) (is js : List (Instruction F))
      → renumber n (is ++ js) ≡ renumber n is ++ renumber (n + length is) js
  renumber-append n [] js = ap (λ k. renumber k js) (omega arith)
  renumber-append n (i ∷ is) js =
      ap (◌∷◌ (record i { id = some n })) (
        renumber-append (suc n) is js
        ∙ ap (λ k. renumber (suc n) is ++ renumber k js) (omega arith))

  pub flatten-renumber_blocks :
      (n : ℕ) (bs : List (BasicBlock F)) → flatten (renumber_blocks n bs) ≡ renumber n (flatten bs)
  flatten-renumber_blocks n [] = refl
  flatten-renumber_blocks n (b ∷ bs) =
      ap (◌++◌ (renumber n b.instructions)) (flatten-renumber_blocks (n + length b.instructions) bs)
      ∙ sym (renumber-append n b.instructions (flatten bs))

  pub count-length : (bs : List (BasicBlock F)) → count bs ≡ length (flatten bs)
  count-length [] = refl
  count-length (b ∷ bs) = omega (arith, count-length bs, length-append b.instructions (flatten bs))

  length-renumber : (n : ℕ) (is : List (Instruction F)) → length (renumber n is) ≡ length is
  length-renumber n [] = refl
  length-renumber n (i ∷ is) = ap suc (length-renumber (suc n) is)

  -- The numbers are `n`, `n + 1`, … in order.
  abbrev pub NumberedFrom : ℕ → List (Instruction F) → Type 0
  NumberedFrom n [] = Unit
  NumberedFrom n (i ∷ is) = (i.id ≡ some n) × NumberedFrom (suc n) is

  renumber-NumberedFrom : (n : ℕ) (is : List (Instruction F)) → NumberedFrom n (renumber n is)
  renumber-NumberedFrom n [] = tt
  renumber-NumberedFrom n (i ∷ is) = (refl, renumber-NumberedFrom (suc n) is)

  -- After `_reassign_ids` the numbers of the instructions, in the order of the blocks, are 0, 1, …
  -- up to the next free number, which is the number of instructions.
  pub reassign_ids-NumberedFrom :
      (f : Function F)
      → NumberedFrom 0 (flatten (reassign_ids f).blocks)
        × ((reassign_ids f).next_inst_id ≡ length (flatten (reassign_ids f).blocks))
        × (count (reassign_ids f).blocks ≡ count f.blocks)
  unfolding reassign_ids
  reassign_ids-NumberedFrom f =
      let e = flatten-renumber_blocks 0 f.blocks in
      let l = ap length e ∙ length-renumber 0 (flatten f.blocks) in
      (
        rw e (renumber-NumberedFrom 0 (flatten f.blocks)),
        count-length f.blocks ∙ sym l,
        count-length (renumber_blocks 0 f.blocks) ∙ l ∙ sym (count-length f.blocks),
      )

  Absent-renumber : (k n : ℕ) (is : List (Instruction F)) → Absent k is → Absent k (renumber n is)
  Absent-renumber k n [] a = tt
  Absent-renumber k n (i ∷ is) a = (a.0, Absent-renumber k (suc n) is a.1)

  Settled-renumber :
      (vs : List (Value F)) (n : ℕ) (is : List (Instruction F))
      → Settled vs is
      → Settled vs (renumber n is)
  Settled-renumber vs n [] a = tt
  Settled-renumber vs n (i ∷ is) a = (a.0, Settled-renumber vs (suc n) is a.1)

  IsSsa-renumber :
      (g : ℕ → Ty) (n : ℕ) (is : List (Instruction F)) → IsSsa g is → IsSsa g (renumber n is)
  IsSsa-renumber g n [] s = tt
  IsSsa-renumber g n (i ∷ is) (t, typed, absent, settled, s) = (
    t,
    typed,
    Absent-renumber i.key (suc n) is absent,
    (settled.0, Settled-renumber i.args (suc n) is settled.1),
    IsSsa-renumber g (suc n) is s,
  )

  pub reassign_ids-IsSsa :
      (g : ℕ → Ty) (f : Function F)
      → IsSsa g (flatten f.blocks)
      → IsSsa g (flatten (reassign_ids f).blocks)
  unfolding reassign_ids
  reassign_ids-IsSsa g f s =
      rw (flatten-renumber_blocks 0 f.blocks) (IsSsa-renumber g 0 (flatten f.blocks) s)

  module _ (M : Machine F) where
    pub exec_all-renumber :
        (s : State M) (n : ℕ) (is : List (Instruction F))
        → exec_all M s (renumber n is) ≡ exec_all M s is
    unfolding exec_all step
    exec_all-renumber s n [] = refl
    exec_all-renumber s n (i ∷ is) = exec_all-renumber (step M s i) (suc n) is

    -- The instructions of a function, run in the order of its blocks.
    abbrev pub exec_function : State M → Function F → State M
    exec_function s f = exec_all M s (flatten f.blocks)

    pub exec-reassign_ids :
        (s : State M) (f : Function F) → exec_function s (reassign_ids f) ≡ exec_function s f
    unfolding reassign_ids
    exec-reassign_ids s f =
        rw (flatten-renumber_blocks 0 f.blocks) (exec_all-renumber s 0 (flatten f.blocks))
