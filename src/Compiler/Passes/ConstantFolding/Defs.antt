-- ===== src/Compiler/Passes/ConstantFolding/Defs.antt =====
-- The pass itself (uhcr/compiler/passes/constant_folding.py).
use uhcr.Prelude.{
  ℕ, ◌+◌, Bool, true, false, List, [], ◌∷◌, Option, none, some, map, string_eq, nat_eq,
  if◌then◌else◌,
}
use uhcr.Prelude.Dict.{lookup, insert}
use uhcr.Compiler.Ir.Types.{Opcode, add, sub, mul, div, fadd, fsub, fmul, fdiv}
use uhcr.Compiler.Ir.Function.{
  Number, Value, constant, result_of, Instruction, Function, reassign_ids,
}
use uhcr.Compiler.Passes.Numbers.{FloatOps, compute}
use uhcr.Compiler.Passes.Sweep.{sweep_blocks}

-- `folded_values`, by the identity of the instruction, and `_folded_count`.
pub record Folding (F : Type 0) : Type 0 where
  pub folded : List (ℕ × Number F)
  pub folded_count : ℕ

-- `opcode in (ADD, SUB, MUL, DIV, FADD, FSUB, FMUL, FDIV)`
abbrev pub is_scalar_arithmetic : Opcode → Bool
is_scalar_arithmetic add = true
is_scalar_arithmetic sub = true
is_scalar_arithmetic mul = true
is_scalar_arithmetic div = true
is_scalar_arithmetic fadd = true
is_scalar_arithmetic fsub = true
is_scalar_arithmetic fmul = true
is_scalar_arithmetic fdiv = true
is_scalar_arithmetic _ = false

module _ {F : Type 0} where
  -- `_get_constant_value`
  unfoldable pub get_constant_value : List (ℕ × Number F) → Value F → Option (Number F)
  get_constant_value folded (constant t c) = some c
  get_constant_value folded (result_of k t) = lookup k folded
  get_constant_value folded _ = none

  abbrev pub resolve_to : Value F → Option (Number F) → Value F
  resolve_to v none = v
  resolve_to (result_of k t) (some c) = constant t c
  resolve_to v (some c) = v

  -- `_resolve`
  unfoldable pub resolve : List (ℕ × Number F) → Value F → Value F
  resolve folded (result_of k t) = resolve_to (result_of k t) (lookup k folded)
  resolve folded v = v

module _ {F : Type 0} (fl : FloatOps F) where
  abbrev pub try_operands : Opcode → Option (Number F) → Option (Number F) → Option (Number F)
  try_operands op (some a) (some b) = compute fl op a b
  try_operands op _ _ = none

  abbrev pub try_args : List (ℕ × Number F) → Opcode → List (Value F) → Option (Number F)
  try_args folded op (a ∷ b ∷ []) =
      try_operands op (get_constant_value folded a) (get_constant_value folded b)
  try_args folded op _ = none

  -- `_try_fold`
  unfoldable pub try_fold : List (ℕ × Number F) → Instruction F → Option (Number F)
  try_fold folded inst =
      if is_scalar_arithmetic inst.opcode then try_args folded inst.opcode inst.args else none

  abbrev pub visit_with :
      Folding F → Instruction F → Option (Number F) → Folding F × Option (Instruction F)
  visit_with d inst (some c) =
      (record { folded = insert inst.key c d.folded; folded_count = d.folded_count + 1 }, none)
  visit_with d inst none = (d, some (record inst { args = map (resolve d.folded) inst.args }))

  -- The body of the loop of `run`.
  unfoldable pub visit : Folding F → Instruction F → Folding F × Option (Instruction F)
  visit d inst = visit_with d inst (try_fold d.folded inst)

  -- `run`: the function rewritten, and `stats["folded"]`.
  unfoldable pub run : Function F → Function F × ℕ
  run f =
      let (d, blocks) = sweep_blocks visit (record { folded = []; folded_count = 0 }) f.blocks in
      (reassign_ids (record f { blocks = blocks }), d.folded_count)
