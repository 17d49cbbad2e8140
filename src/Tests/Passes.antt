-- ===== src/Tests/Passes.antt =====
-- The passes of uhcr/compiler/passes on a small function.
use uhcr.Prelude.{
  ◌+ℤ◌, ℕ, ◌+◌, ◌≡◌, refl, false, List, [], ◌∷◌, none, some, ℤ, pos, nat_beq, if◌then◌else◌, nat_eq,
  length, ◌↔◌, arith,
}
use uhcr.Prelude.Dict.{lookup, insert}
use uhcr.Compiler.Ir.Types.{
  Ty, i32, void, list_i32, string, Opcode, add, sub, mul, ret, from_element_type, get_element_type,
  is_list_type, list_type_tables,
}
use uhcr.Compiler.Ir.Function.{
  int, Value, constant, argument, result_of, Instruction, Function, flatten, count, reassign_ids,
}
use uhcr.Compiler.Ir.Machine.{State, IsSsa}
use uhcr.Compiler.Ir.Numbering.{exec_function, NumberedFrom, reassign_ids-NumberedFrom}
use uhcr.Compiler.Ir.Paths.{exec_path}
use uhcr.Compiler.Passes.Sweep.{sweep_blocks, sweep}
use uhcr.Compiler.Passes.Numbers.{compute, plus}
use uhcr.Compiler.Passes.ConstantFolding
use uhcr.Compiler.Passes.StrengthReduction
use uhcr.Compiler.Passes.DeadCode
use uhcr.Compiler.Passes.Cse
use uhcr.Compiler.Passes.Pipeline
use uhcr.Tests.Calculator.{
  whole_floats, calculator, calculator-Evaluates, calculator-Identities, calculator-IsQuiet,
  calculator-IsPure,
}

abbrev inst : ℕ → Opcode → Ty → List (Value ℤ) → Instruction ℤ
inst k op t vs = record { key = k; opcode = op; type = t; args = vs; id = some k }

abbrev number : ℕ → Value ℤ
number n = constant i32 (int (pos n))

abbrev body : List (Instruction ℤ)
body =
    inst 0 add i32 (number 3 ∷ number 5 ∷ [])
    ∷ inst 1 mul i32 (result_of 0 i32 ∷ argument i32 "arg0" ∷ [])
    ∷ inst 2 add i32 (result_of 1 i32 ∷ number 0 ∷ [])
    ∷ inst 3 sub i32 (result_of 2 i32 ∷ argument i32 "arg1" ∷ [])
    ∷ inst 4 sub i32 (result_of 2 i32 ∷ argument i32 "arg1" ∷ [])
    ∷ inst 5 mul i32 (argument i32 "arg0" ∷ number 2 ∷ [])
    ∷ inst 6 ret void (result_of 3 i32 ∷ result_of 4 i32 ∷ [])
    ∷ []

abbrev sample : Function ℤ
sample = record {
  name = "f";
  return_type = i32;
  arguments = i32 ∷ i32 ∷ [];
  blocks = record { label = "entry"; instructions = body } ∷ [];
  next_inst_id = 7;
}

abbrev types : ℕ → Ty
types k = if nat_beq k 6 then void else i32

abbrev initial : State calculator
initial = record { env = λ k. pos 0; mem = [] }

sample-IsSsa : IsSsa types (flatten sample.blocks)
sample-IsSsa = ground arith

constant_fold-exec_example :
    (exec_function calculator initial (ConstantFolding.Defs.run whole_floats sample).0).mem
    ≡ (exec_function calculator initial sample).mem
constant_fold-exec_example =
    ConstantFolding.Run.constant_fold-exec types whole_floats calculator calculator-Evaluates sample
      initial sample-IsSsa

constant_fold-count_example :
    ((ConstantFolding.Defs.run whole_floats sample).1
        + count (ConstantFolding.Defs.run whole_floats sample).0.blocks
      ≡ count sample.blocks)
    × NumberedFrom 0 (flatten (ConstantFolding.Defs.run whole_floats sample).0.blocks)
constant_fold-count_example = ConstantFolding.Run.constant_fold-count types whole_floats sample

strength_reduce-exec_example :
    (exec_function calculator initial (StrengthReduction.Defs.run whole_floats sample).0).mem
    ≡ (exec_function calculator initial sample).mem
strength_reduce-exec_example =
    StrengthReduction.Run.strength_reduce-exec types whole_floats calculator calculator-Identities
      sample initial sample-IsSsa

dead_code_eliminate-exec_path_example :
    (exec_path calculator initial (DeadCode.Defs.run sample).0 (0 ∷ 0 ∷ [])).mem
    ≡ (exec_path calculator initial sample (0 ∷ 0 ∷ [])).mem
dead_code_eliminate-exec_path_example =
    DeadCode.Run.dead_code_eliminate-exec_path calculator calculator-IsQuiet sample initial
      (0 ∷ 0 ∷ [])

dead_code_eliminate-NoneDead_example :
    DeadCode.Run.NoneDead (flatten (DeadCode.Defs.run sample).0.blocks)
    × ((DeadCode.Defs.run sample).1 + count (DeadCode.Defs.run sample).0.blocks
        ≡ count sample.blocks)
dead_code_eliminate-NoneDead_example = DeadCode.Run.dead_code_eliminate-NoneDead sample

cse-exec_example :
    (exec_function calculator initial (Cse.Defs.run whole_floats sample).0).mem
    ≡ (exec_function calculator initial sample).mem
cse-exec_example =
    Cse.Run.cse-exec types whole_floats calculator calculator-IsPure sample initial sample-IsSsa

run_default_passes-exec_example :
    (exec_function calculator initial (Pipeline.Defs.run_default_passes whole_floats sample)).mem
    ≡ (exec_function calculator initial sample).mem
run_default_passes-exec_example =
    Pipeline.Sound.run_default_passes-exec calculator types whole_floats sample initial
      calculator-Evaluates calculator-Identities calculator-IsQuiet calculator-IsPure sample-IsSsa

abbrev dead_code_only : List (Pipeline.Defs.Pass ℤ)
dead_code_only = Pipeline.Defs.dead_code_eliminate whole_floats ∷ []

run_passes-Rounds_example :
    (k : ℕ) × Pipeline.Rounds.Rounds 2 k dead_code_only sample
    × ((Pipeline.Defs.run dead_code_only sample 2).func
        ≡ Pipeline.Rounds.after_rounds k dead_code_only sample)
    × ((Pipeline.Defs.run dead_code_only sample 2).stats
        ≡ Pipeline.Rounds.all_stats k 0 dead_code_only sample)
run_passes-Rounds_example = Pipeline.Rounds.run_passes-Rounds dead_code_only sample 2

reassign_ids-NumberedFrom_example :
    NumberedFrom 0 (flatten (reassign_ids sample).blocks)
    × ((reassign_ids sample).next_inst_id ≡ length (flatten (reassign_ids sample).blocks))
    × (count (reassign_ids sample).blocks ≡ count sample.blocks)
reassign_ids-NumberedFrom_example = reassign_ids-NumberedFrom sample

list_type_tables_example :
    ((from_element_type string ≡ some list_i32) ↔ (get_element_type list_i32 ≡ some string))
    × (is_list_type list_i32 ≡ false → get_element_type list_i32 ≡ none)
    × (get_element_type list_i32 ≡ none → is_list_type list_i32 ≡ false)
list_type_tables_example = list_type_tables list_i32 string

-- The whole pipeline leaves three instructions of the seven.
program : Unit {0}
unfolding Pipeline.Defs.run_default_passes Pipeline.Defs.run Pipeline.Defs.iterate
    Pipeline.Defs.apply_passes Pipeline.Defs.apply_pass ConstantFolding.Defs.run
    ConstantFolding.Defs.visit ConstantFolding.Defs.try_fold ConstantFolding.Defs.get_constant_value
    ConstantFolding.Defs.resolve StrengthReduction.Defs.run StrengthReduction.Defs.visit
    StrengthReduction.Defs.try_reduce StrengthReduction.Defs.reduce DeadCode.Defs.run
    DeadCode.Defs.eliminate DeadCode.Defs.round DeadCode.Defs.visit DeadCode.Defs.is_dead
    DeadCode.Defs.has_side_effects Cse.Defs.run Cse.Defs.visit Cse.Defs.find Cse.Defs.same_keys
    Cse.Defs.same_key Cse.Defs.no_cse sweep_blocks sweep lookup insert compute plus ◌+ℤ◌
    reassign_ids
program = tt

run_default_passes-count : count (Pipeline.Defs.run_default_passes whole_floats sample).blocks ≡ 3
unfolding program
run_default_passes-count = refl
