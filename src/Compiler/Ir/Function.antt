-- ===== src/Compiler/Ir/Function.antt =====
-- Values, instructions, blocks and functions (uhcr/compiler/ir.py). `F` is the type of Python's
-- floats, which the model leaves open. An instruction object is identified by its `key`, which no
-- operation changes: Python's `id(inst)`. Its printed number `id` is `none` where Python has -1.
use uhcr.Prelude.{
  ℕ, suc, ◌+◌, Bool, true, false, List, [], ◌∷◌, ◌++◌, Option, none, some, String, ℤ, ◌==◌, ◌&&◌,
  length, nat_beq,
}
use uhcr.Compiler.Ir.Types.{
  Ty, Opcode, type_eq, string, i64, strlen, strcat, strindex, strslice, streq, strhash,
}

-- A number that a `Constant` holds: Python's unbounded `int`, or a float.
pub data Number (F : Type 0) : Type 0 where
  int : ℤ → Number F
  float : F → Number F

-- An operand: a `Constant` with a number, a `Constant` with a string (a condition or the label of a
-- block), an `Argument`, or an `Instruction`, by its identity and its type.
pub data Value (F : Type 0) : Type 0 where
  constant : Ty → Number F → Value F
  label : Ty → String → Value F
  argument : Ty → String → Value F
  result_of : ℕ → Ty → Value F

pub record Instruction (F : Type 0) : Type 0 where
  pub key : ℕ
  pub opcode : Opcode
  pub type : Ty
  pub args : List (Value F)
  pub id : Option ℕ

pub record BasicBlock (F : Type 0) : Type 0 where
  pub label : String
  pub instructions : List (Instruction F)

pub record Function (F : Type 0) : Type 0 where
  pub name : String
  pub return_type : Ty
  pub arguments : List Ty
  pub blocks : List (BasicBlock F)
  pub next_inst_id : ℕ

module _ {F : Type 0} where
  abbrev pub value_type : Value F → Ty
  value_type (constant t _) = t
  value_type (label t _) = t
  value_type (argument t _) = t
  value_type (result_of _ t) = t

  -- `Function.__init__`
  unfoldable pub new_function : String → List Ty → Ty → Function F
  new_function name arg_types return_type = record {
    name = name;
    return_type = return_type;
    arguments = arg_types;
    blocks = [];
    next_inst_id = 0;
  }

  -- `Function.create_block`
  unfoldable pub create_block : Function F → String → Function F
  create_block f l = record f { blocks = f.blocks ++ record { label = l; instructions = [] } ∷ [] }

  -- `Function._assign_id`: the instruction numbered, and the next number.
  unfoldable pub assign_id : ℕ → Instruction F → Instruction F × ℕ
  assign_id next inst = elim inst.id [
    | none ↦ (record inst { id = some next }, next + 1)
    | some _ ↦ (inst, next)
  ]

  -- `BasicBlock.append` of an instruction to the block at a position.
  abbrev pub append_at : List (BasicBlock F) → ℕ → Instruction F → List (BasicBlock F)
  append_at [] i inst = []
  append_at (b ∷ bs) ℕ.zero inst = record b { instructions = b.instructions ++ inst ∷ [] } ∷ bs
  append_at (b ∷ bs) (suc i) inst = b ∷ append_at bs i inst

  -- `BasicBlock.add_instruction` on a block of the function. The object is shared, so the number
  -- that it gets shows in the block that holds it.
  unfoldable pub add_instruction : Function F → ℕ → Instruction F → Function F
  unfolding assign_id
  add_instruction f i inst =
      let (numbered, next) = assign_id f.next_inst_id inst in
      record f { blocks = append_at f.blocks i numbered; next_inst_id = next }

  -- `Function.validate`: the test of the last instruction's opcode has no effect.
  abbrev pub none_empty : List (BasicBlock F) → Bool
  none_empty [] = true
  none_empty (b ∷ bs) = elim b.instructions [ [] ↦ false | _ ∷ _ ↦ none_empty bs ]

  unfoldable pub validate : Function F → Bool
  validate f = elim f.blocks [ [] ↦ false | b ∷ bs ↦ none_empty (b ∷ bs) ]

  -- The instructions of a function in the order of its blocks.
  abbrev pub flatten : List (BasicBlock F) → List (Instruction F)
  flatten [] = []
  flatten (b ∷ bs) = b.instructions ++ flatten bs

  abbrev all_strings : List (Value F) → Bool
  all_strings [] = true
  all_strings (v ∷ vs) = value_type v == string && all_strings vs

  -- `validate_string_opcode_args`
  unfoldable pub validate_string_opcode_args : Opcode → List (Value F) → Bool
  validate_string_opcode_args strlen args = nat_beq (length args) 1 && all_strings args
  validate_string_opcode_args strcat args = nat_beq (length args) 2 && all_strings args
  validate_string_opcode_args strindex (s ∷ i ∷ []) = value_type s == string && value_type i == i64
  validate_string_opcode_args strslice (s ∷ i ∷ j ∷ []) =
      value_type s == string && (value_type i == i64 && value_type j == i64)
  validate_string_opcode_args streq args = nat_beq (length args) 2 && all_strings args
  validate_string_opcode_args strhash args = nat_beq (length args) 1 && all_strings args
  validate_string_opcode_args _ _ = false

  -- `_reassign_ids`, which every pass runs last.
  abbrev pub renumber : ℕ → List (Instruction F) → List (Instruction F)
  renumber n [] = []
  renumber n (i ∷ is) = record i { id = some n } ∷ renumber (suc n) is

  abbrev pub renumber_blocks : ℕ → List (BasicBlock F) → List (BasicBlock F)
  renumber_blocks n [] = []
  renumber_blocks n (b ∷ bs) =
      record b { instructions = renumber n b.instructions }
      ∷ renumber_blocks (n + length b.instructions) bs

  abbrev pub count : List (BasicBlock F) → ℕ
  count [] = 0
  count (b ∷ bs) = length b.instructions + count bs

  unfoldable pub reassign_ids : Function F → Function F
  reassign_ids f = record f { blocks = renumber_blocks 0 f.blocks; next_inst_id = count f.blocks }
