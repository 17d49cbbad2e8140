-- ===== src/Tests/Builder.antt =====
-- A program for the builder: a function with one block that measures a string and indexes it.
use uhcr.Prelude.{ℕ, ◌≡◌, refl, true, false, List, [], ◌∷◌, some, pos, get_elem?}
use uhcr.Compiler.Ir.Types.{Opcode, i32, i64, string, void, is_list_type}
use uhcr.Compiler.Ir.Function.{
  argument, result_of, constant, int, Instruction, BasicBlock, Function,
  validate_string_opcode_args,
}
use uhcr.Compiler.IrBuilder.State.{
  Operand, value, literal_int, literal_float, init, val, emit, set_block, create_block_in,
  new_function_in, new_module,
}
use uhcr.Compiler.IrBuilder.Methods.{ret}
use uhcr.Compiler.IrBuilder.Structured.{strindex, to_i64, listlen, strlen}
use uhcr.Compiler.IrBuilder.Rules.{TypedHeap}
use uhcr.Compiler.IrBuilder.Program.{BuilderCall, run, perform, all_fit, run-builder-TypedHeap}
use uhcr.Compiler.IrBuilder.Validated.{run-validates}

abbrev text : Operand ℕ
text = value (argument string "text")

abbrev measure : List (BuilderCall ℕ)
measure =
    BuilderCall.new_module
    ∷ BuilderCall.new_function "measure" (string ∷ []) i64
    ∷ BuilderCall.create_block 0 "entry"
    ∷ BuilderCall.set_block (record { function = 0; index = 0; name = "entry" })
    ∷ BuilderCall.strlen text
    ∷ BuilderCall.listlen text
    ∷ BuilderCall.strindex text (literal_int (pos 2))
    ∷ BuilderCall.ret (some (value (result_of 0 i64)))
    ∷ []

abbrev summing : List (BuilderCall ℕ)
summing =
    BuilderCall.new_module
    ∷ BuilderCall.new_function "sum" (string ∷ []) i64
    ∷ BuilderCall.create_block 0 "entry"
    ∷ BuilderCall.set_block (record { function = 0; index = 0; name = "entry" })
    ∷ BuilderCall.strlen text
    ∷ BuilderCall.add (value (result_of 0 i64)) (value (constant i64 (int (pos 1))))
    ∷ BuilderCall.ret (some (value (result_of 1 i64)))
    ∷ []

run-builder-TypedHeap_example : TypedHeap true (run summing init).heap
run-builder-TypedHeap_example = run-builder-TypedHeap true summing (λ _. refl)

-- The operands of an addition of an integer and a float do not fit.
mixed-fits : all_fit {F = ℕ} (BuilderCall.add (literal_int (pos 1)) (literal_float 1) ∷ []) ≡ false
mixed-fits = refl

abbrev indexing : Instruction ℕ
indexing = record {
  key = 1;
  opcode = Opcode.strindex;
  type = i32;
  args = argument string "text" ∷ constant i64 (int (pos 2)) ∷ [];
  id = some 1;
}

abbrev measuring : Instruction ℕ
measuring = record {
  key = 0;
  opcode = Opcode.strlen;
  type = i64;
  args = argument string "text" ∷ [];
  id = some 0;
}

abbrev returning : Instruction ℕ
returning = record {
  key = 2;
  opcode = Opcode.ret;
  type = void;
  args = result_of 0 i64 ∷ [];
  id = some 2;
}

abbrev entry : BasicBlock ℕ
entry = record { label = "entry"; instructions = measuring ∷ indexing ∷ returning ∷ [] }

abbrev measured : Function ℕ
measured = record {
  name = "measure";
  return_type = i64;
  arguments = string ∷ [];
  blocks = entry ∷ [];
  next_inst_id = 3;
}

built : get_elem? (run measure init).heap 0 ≡ some measured
unfolding run perform init ret val emit strindex to_i64 listlen is_list_type strlen set_block
    create_block_in new_function_in new_module
built = refl

run-validates_example : validate_string_opcode_args indexing.opcode indexing.args ≡ true
run-validates_example = run-validates measure 0 0 1 measured entry indexing built refl refl refl
