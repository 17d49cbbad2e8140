-- ===== src/Compiler/Passes/Cse/Defs.antt =====
-- The pass itself (uhcr/compiler/passes/cse.py). Every operand of the model has a key, so the two
-- tests for a missing key pass.
use uhcr.Prelude.{
  ℕ, ◌+◌, Bool, true, false, ◌&&◌, ◌||◌, List, [], ◌∷◌, Option, none, some, map, nat_eq, string_eq,
  nat_beq, if◌then◌else◌, ◌==◌,
}
use uhcr.Prelude.Dict.{insert}
use uhcr.Compiler.Ir.Types.{
  Ty, type_eq, void, Opcode, opcode_eq, store, vstore, load, vload, ret, br, jmp, matmul, relu, cmp,
}
use uhcr.Compiler.Ir.Function.{
  Value, constant, label, argument, result_of, Instruction, Function, reassign_ids,
}
use uhcr.Compiler.Passes.Numbers.{FloatOps, number_eq}
use uhcr.Compiler.Passes.Tables.{resolve}
use uhcr.Compiler.Passes.Sweep.{sweep_blocks}

-- `_NO_CSE_OPCODES`
unfoldable pub no_cse : Opcode → Bool
no_cse store = true
no_cse vstore = true
no_cse load = true
no_cse vload = true
no_cse ret = true
no_cse br = true
no_cse jmp = true
no_cse matmul = true
no_cse relu = true
no_cse cmp = true
no_cse _ = false

-- An entry of `expr_map`: the key (opcode, type, operands) and the instruction that computed it.
pub record Entry (F : Type 0) : Type 0 where
  pub opcode : Opcode
  pub type : Ty
  pub operands : List (Value F)
  pub first : ℕ

-- `expr_map`, `replacements` and `_eliminated_count`.
pub record Elimination (F : Type 0) : Type 0 where
  pub expr_map : List (Entry F)
  pub replacements : List (ℕ × Value F)
  pub eliminated_count : ℕ

module _ {F : Type 0} where
  abbrev pub start : Elimination F
  start = record { expr_map = []; replacements = []; eliminated_count = 0 }

  abbrev pub record_or_replace :
      Elimination F → Instruction F → Option ℕ → Elimination F × Option (Instruction F)
  record_or_replace d inst (some first) = (
    record d {
      replacements = insert inst.key (result_of first inst.type) d.replacements;
      eliminated_count = d.eliminated_count + 1;
    },
    none,
  )
  record_or_replace d inst none = (
    record d {
      expr_map =
          record { opcode = inst.opcode; type = inst.type; operands = inst.args; first = inst.key }
          ∷ d.expr_map;
    },
    some inst,
  )

  -- `inst.args = [self._resolve(arg, replacements) for arg in inst.args]`
  abbrev pub resolved : Elimination F → Instruction F → Instruction F
  resolved d inst = record inst { args = map (resolve d.replacements) inst.args }

module _ {F : Type 0} (fl : FloatOps F) where
  -- Equality of `_value_key`s: the numbers of constants compare by Python's `==`.
  unfoldable pub same_key : Value F → Value F → Bool
  same_key (constant t a) (constant u b) = t == u && number_eq fl a b
  same_key (label t a) (label u b) = t == u && a == b
  same_key (argument _ a) (argument _ b) = a == b
  same_key (result_of j _) (result_of k _) = nat_beq j k
  same_key _ _ = false

  unfoldable pub same_keys : List (Value F) → List (Value F) → Bool
  same_keys [] [] = true
  same_keys (v ∷ vs) (w ∷ ws) = same_key v w && same_keys vs ws
  same_keys _ _ = false

  -- Equality of two `_expr_key`s.
  abbrev pub matches : Entry F → Instruction F → Bool
  matches e i = (e.opcode == i.opcode && e.type == i.type) && same_keys e.operands i.args

  -- `key in expr_map`, and the instruction that it holds.
  unfoldable pub find : List (Entry F) → Instruction F → Option ℕ
  find [] i = none
  find (e ∷ es) i = if matches e i then some e.first else find es i

  -- The body of the loop of `run`.
  unfoldable pub visit : Elimination F → Instruction F → Elimination F × Option (Instruction F)
  visit d inst =
      if no_cse inst.opcode || inst.type == void
      then (d, some (resolved d inst))
      else record_or_replace d (resolved d inst) (find d.expr_map (resolved d inst))

  -- `run`: the function rewritten, and `stats["eliminated"]`.
  unfoldable pub run : Function F → Function F × ℕ
  run f =
      let (d, blocks) = sweep_blocks visit start f.blocks in
      (reassign_ids (record f { blocks = blocks }), d.eliminated_count)
