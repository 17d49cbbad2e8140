-- ===== src/Compiler/Passes/ConstantFolding/Run.antt =====
-- `ConstantFoldingPass.run` on a whole function (uhcr/compiler/passes/constant_folding.py).
use uhcr.Prelude.{
  ℕ, ◌+◌, ◌≡◌, refl, List, [], ◌∷◌, Option, none, some, ap, sym, ◌∙◌, arith, length, subst,
}
use uhcr.Compiler.Ir.Types.{Ty}
use uhcr.Compiler.Ir.Function.{
  Number, Value, constant, label, argument, result_of, Instruction, Function, flatten, count,
}
use uhcr.Compiler.Ir.Machine.{
  Machine, State, Typed, Avoids, IsSsa, exec_all, TypedIn-map, Settled-map,
}
use uhcr.Compiler.Ir.Numbering.{
  exec_function, exec-reassign_ids, reassign_ids-IsSsa, reassign_ids-NumberedFrom, NumberedFrom,
  count-length,
}
use uhcr.Compiler.Passes.Numbers.{FloatOps}
use uhcr.Compiler.Passes.Substitution.{Related-refl, Related-cong}
use uhcr.Compiler.Passes.Sweep.{
  sweep, sweep_blocks, flatten-sweep_blocks, sweep_rule, sweep-IsSsa, Emits, FreshIn-nil,
}
use uhcr.Compiler.Passes.ConstantFolding.Defs.{Folding, resolve, try_fold, visit, visit_with, run}
use uhcr.Compiler.Passes.ConstantFolding.Sound.{Evaluates, Inv, visit-Inv, substitution}
use uhcr.Prelude.Dict.{lookup}
use uhcr.Prelude.{nat_eq}

abbrev start : {F : Type 0} → Folding F
start = record { folded = []; folded_count = 0 }

module _ {F : Type 0} (g : ℕ → Ty) (fl : FloatOps F) where
  -- On a machine that computes scalar arithmetic on constants as Python does, the folded function,
  -- run block after block from any state, leaves the memory that the function itself leaves.
  pub constant_fold-exec :
      (M : Machine F)
      → Evaluates fl M
      → (f : Function F) (s : State M) → IsSsa g (flatten f.blocks)
      → (exec_function M s (run fl f).0).mem ≡ (exec_function M s f).mem
  unfolding run lookup
  constant_fold-exec M law f s ssa =
      let before =
        Related-cong M {σ = λ _. none} {τ = substitution g []} (λ k. refl) (Related-refl M s) in
      ap (λ x. x.mem) (exec-reassign_ids M s _)
      ∙ sym (ap (λ x. (exec_all M s x.1).mem) (flatten-sweep_blocks (visit fl) start f.blocks))
      ∙ sym
          (sweep_rule (visit fl) M (Inv g M fl law) (visit-Inv g M fl law) start s s
            (flatten f.blocks) (before, FreshIn-nil (Number F) (flatten f.blocks), ssa)).0.same_mem

  resolve-Typed : (d : List (ℕ × Number F)) (v : Value F) → Typed g v → Typed g (resolve d v)
  unfolding resolve
  resolve-Typed d (result_of k t) h = ground (arith)
  resolve-Typed d (constant t c) h = tt
  resolve-Typed d (label t c) h = tt
  resolve-Typed d (argument t c) h = tt

  resolve-Avoids :
      (d : List (ℕ × Number F)) (k : ℕ) (v : Value F) → Avoids k v → Avoids k (resolve d v)
  unfolding resolve
  resolve-Avoids d k (result_of j t) h = ground (arith)
  resolve-Avoids d k (constant t c) h = tt
  resolve-Avoids d k (label t c) h = tt
  resolve-Avoids d k (argument t c) h = tt

  visit-Emits :
      (d : Folding F) (i : Instruction F) (is : List (Instruction F))
      → IsSsa g (i ∷ is)
      → Emits (visit fl) g i is (visit fl d i).1 × IsSsa g is
  unfolding visit
  visit-Emits d i is (t, typed, absent, settled, ssa) = (go (try_fold fl d.folded i), ssa)
    where
      go : (o : Option (Number F)) → Emits (visit fl) g i is (visit_with fl d i o).1
      go (some c) = tt
      go none = (
        refl,
        refl,
        TypedIn-map g (resolve d.folded) i.args (resolve-Typed d.folded) typed,
        Settled-map (resolve d.folded) i.args (i ∷ is) (resolve-Avoids d.folded) settled,
      )

  pub run-IsSsa :
      (f : Function F) → IsSsa g (flatten f.blocks) → IsSsa g (flatten (run fl f).0.blocks)
  unfolding run
  run-IsSsa f ssa = reassign_ids-IsSsa g _ (
      subst (λ x. IsSsa g x.1) (flatten-sweep_blocks (visit fl) start f.blocks)
        (sweep-IsSsa (visit fl) g (λ _. IsSsa g) visit-Emits start (flatten f.blocks) ssa ssa))

  sweep-folded_count :
      (d : Folding F) (is : List (Instruction F))
      → (sweep (visit fl) d is).0.folded_count + length (sweep (visit fl) d is).1
        ≡ d.folded_count + length is
  unfolding sweep visit
  sweep-folded_count d [] = refl
  sweep-folded_count d (i ∷ is) = ground (arith, sweep-folded_count (visit fl d i).0 is)

  -- The pass reports the number of instructions that it removed, adds none, and numbers the rest
  -- 0, 1, 2, … in the order of the blocks.
  pub constant_fold-count :
      (f : Function F)
      → ((run fl f).1 + count (run fl f).0.blocks ≡ count f.blocks)
        × NumberedFrom 0 (flatten (run fl f).0.blocks)
  unfolding run
  constant_fold-count f =
      let e = flatten-sweep_blocks (visit fl) start f.blocks in
      let out = sweep_blocks (visit fl) start f.blocks in
      let n = reassign_ids-NumberedFrom (record f { blocks = out.1 }) in
      let c = sweep-folded_count start (flatten f.blocks) in
      (
        omega (
          arith,
          n.2,
          count-length out.1,
          count-length f.blocks,
          c,
          ap (λ x. x.0.folded_count) e,
          ap (λ x. length x.1) e,
        ),
        n.0,
      )
