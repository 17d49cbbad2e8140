-- ===== src/Compiler/Passes/Pipeline/Defs.antt =====
-- `OptimizationPipeline` and `run_default_passes` (uhcr/compiler/passes/pipeline.py).
use uhcr.Prelude.{
  ℕ, zero, suc, ◌+◌, Bool, false, not, ◌||◌, List, [], ◌∷◌, ◌++◌, String, nat_beq, if◌then◌else◌,
}
use uhcr.Compiler.Ir.Function.{Function, count}
use uhcr.Compiler.Passes.Numbers.{FloatOps}
use uhcr.Compiler.Passes.ConstantFolding
use uhcr.Compiler.Passes.StrengthReduction
use uhcr.Compiler.Passes.DeadCode
use uhcr.Compiler.Passes.Cse

-- The interface `Pass`: its name and the function that it rewrites.
pub record Pass (F : Type 0) : Type 0 where
  pub name : String
  pub run : Function F → Function F

-- An entry of `_stats`.
pub record PassStat : Type 0 where
  pub pass : String
  pub iteration : ℕ
  pub before : ℕ
  pub after : ℕ

-- What an iteration, or the whole run, has reached: the function, whether an instruction count
-- changed in this iteration, and the statistics.
pub record Progress (F : Type 0) : Type 0 where
  pub func : Function F
  pub changed : Bool
  pub stats : List PassStat

module _ {F : Type 0} where
  -- The body of the loop over the passes.
  unfoldable pub apply_pass : ℕ → Progress F → Pass F → Progress F
  apply_pass iteration s p =
      let before = count s.func.blocks in
      let func = p.run s.func in
      let after = count func.blocks in
      record {
        func = func;
        changed = s.changed || not (nat_beq before after);
        stats =
            s.stats
            ++ record { pass = p.name; iteration = iteration; before = before; after = after } ∷ [];
      }

  unfoldable pub apply_passes : ℕ → Progress F → List (Pass F) → Progress F
  apply_passes iteration s [] = s
  apply_passes iteration s (p ∷ ps) = apply_passes iteration (apply_pass iteration s p) ps

  -- `for iteration in range(max_iterations)`, with the number of rounds left: the loop breaks after a
  -- round that changed no instruction count.
  unfoldable pub iterate : ℕ → ℕ → Progress F → List (Pass F) → Progress F
  iterate zero iteration s ps = s
  iterate (suc left) iteration s ps =
      let s' = apply_passes iteration (record s { changed = false }) ps in
      let rest = iterate left (iteration + 1) s' ps in if s'.changed then rest else s'

  -- `OptimizationPipeline.run`
  unfoldable pub run : List (Pass F) → Function F → ℕ → Progress F
  run ps f max_iterations =
      iterate max_iterations 0 (record { func = f; changed = false; stats = [] }) ps

module _ {F : Type 0} (fl : FloatOps F) where
  abbrev pub constant_fold : Pass F
  constant_fold = record { name = "constant_fold"; run = λ f. (ConstantFolding.Defs.run fl f).0 }

  abbrev pub strength_reduce : Pass F
  strength_reduce = record {
    name = "strength_reduce";
    run = λ f. (StrengthReduction.Defs.run fl f).0;
  }

  abbrev pub dead_code_eliminate : Pass F
  dead_code_eliminate = record { name = "dead_code_eliminate"; run = λ f. (DeadCode.Defs.run f).0 }

  abbrev pub cse : Pass F
  cse = record { name = "cse"; run = λ f. (Cse.Defs.run fl f).0 }

  abbrev pub default_passes : List (Pass F)
  default_passes =
      constant_fold ∷ strength_reduce ∷ dead_code_eliminate ∷ cse ∷ dead_code_eliminate ∷ []

  -- `run_default_passes`, with the default of three iterations.
  unfoldable pub run_default_passes : Function F → Function F
  run_default_passes f = (run default_passes f 3).func
