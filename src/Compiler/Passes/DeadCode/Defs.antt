-- ===== src/Compiler/Passes/DeadCode/Defs.antt =====
-- The pass itself (uhcr/compiler/passes/dead_code.py).
use uhcr.Prelude.{
  ℕ, suc, zero, ◌+◌, Bool, true, false, not, List, [], ◌∷◌, ◌++◌, Option, none, some, nat_eq,
  nat_beq, if◌then◌else◌, ◌==◌, contains,
}
use uhcr.Compiler.Ir.Types.{type_eq, void, Opcode, store, vstore, ret, br, jmp, matmul, relu}
use uhcr.Compiler.Ir.Function.{
  Value, result_of, Instruction, BasicBlock, Function, flatten, count, reassign_ids,
}
use uhcr.Compiler.Passes.Sweep.{sweep_blocks}

-- `_SIDE_EFFECT_OPCODES`
unfoldable pub has_side_effects : Opcode → Bool
has_side_effects store = true
has_side_effects vstore = true
has_side_effects ret = true
has_side_effects br = true
has_side_effects jmp = true
has_side_effects matmul = true
has_side_effects relu = true
has_side_effects _ = false

module _ {F : Type 0} where
  abbrev pub references : List (Value F) → List ℕ
  references [] = []
  references (result_of k t ∷ vs) = k ∷ references vs
  references (_ ∷ vs) = references vs

  -- `_collect_uses`: the identities that the operands of the code name.
  abbrev pub collect_uses : List (Instruction F) → List ℕ
  collect_uses [] = []
  collect_uses (i ∷ is) = references i.args ++ collect_uses is

  -- `_is_dead`
  unfoldable pub is_dead : List ℕ → Instruction F → Bool
  is_dead used inst =
      if has_side_effects inst.opcode
      then false
      else if inst.type == void
      then false
      else not (contains inst.key used)

  -- The body of the inner loop: the number of instructions removed so far, and what stays.
  unfoldable pub visit : List ℕ → ℕ → Instruction F → ℕ × Option (Instruction F)
  visit used n inst = if is_dead used inst then (n + 1, none) else (n, some inst)

  -- One round of the outer loop; something changed if the number is not 0.
  unfoldable pub round : List (BasicBlock F) → ℕ × List (BasicBlock F)
  round bs = sweep_blocks (visit (collect_uses (flatten bs))) 0 bs

  -- `while changed`: the blocks when a round changes nothing, and `_eliminated_count`.
  unfoldable pub eliminate : ℕ → List (BasicBlock F) → ℕ → List (BasicBlock F) × ℕ
  eliminate zero bs n = (bs, n)
  eliminate (suc fuel) bs n =
      let rest = eliminate fuel (round bs).1 (n + (round bs).0) in
      if nat_beq (round bs).0 0 then ((round bs).1, n) else rest

  -- `run`: each round but the last removes an instruction, so the fuel is enough.
  unfoldable pub run : Function F → Function F × ℕ
  run f =
      let (blocks, n) = eliminate (suc (count f.blocks)) f.blocks 0 in
      (reassign_ids (record f { blocks = blocks }), n)
