-- ===== src/Compiler/Passes/StrengthReduction/Defs.antt =====
-- The pass itself (uhcr/compiler/passes/strength_reduction.py).
use uhcr.Prelude.{
  ℕ, ◌+◌, Bool, false, List, [], ◌∷◌, Option, none, some, map, nat_eq, string_eq, nat_beq,
  if◌then◌else◌, pos, ◌==◌,
}
use uhcr.Prelude.Dict.{insert}
use uhcr.Compiler.Ir.Types.{Ty, type_eq, Opcode, add, sub, mul, div, fadd, fsub, fmul, fdiv}
use uhcr.Compiler.Ir.Function.{
  int, Value, constant, argument, result_of, Instruction, Function, reassign_ids,
}
use uhcr.Compiler.Passes.Numbers.{FloatOps, is_number}
use uhcr.Compiler.Passes.Tables.{resolve}
use uhcr.Compiler.Passes.Sweep.{sweep_blocks}

-- The branches of `_try_reduce`.
pub data Family : Type 0 where
  multiplication addition subtraction division other : Family

abbrev pub family : Opcode → Family
family mul = multiplication
family fmul = multiplication
family add = addition
family fadd = addition
family sub = subtraction
family fsub = subtraction
family div = division
family fdiv = division
family _ = other

-- `replacements` and `_reductions_count`.
pub record Reduction (F : Type 0) : Type 0 where
  pub replacements : List (ℕ × Value F)
  pub reductions_count : ℕ

module _ {F : Type 0} where
  -- `a is b`
  abbrev pub same_object : Value F → Value F → Bool
  same_object (result_of j _) (result_of k _) = nat_beq j k
  same_object (argument _ a) (argument _ b) = a == b
  same_object _ _ = false

  abbrev pub start : Reduction F
  start = record { replacements = []; reductions_count = 0 }

  -- `Constant(inst.type, 0)`
  abbrev pub zero_of : Ty → Value F
  zero_of t = constant t (int (pos 0))

module _ {F : Type 0} (fl : FloatOps F) where
  -- `_get_const(v) == n`
  abbrev pub is_const : Value F → ℕ → Bool
  is_const (constant t c) n = is_number fl c n
  is_const _ n = false

  unfoldable pub reduce : Family → Ty → Value F → Value F → Option (Value F)
  reduce multiplication t a b =
      if is_const b 0
      then some (zero_of t)
      else if is_const a 0
      then some (zero_of t)
      else if is_const b 1
      then some a
      else if is_const a 1
      then some b
      else none
  reduce addition t a b = if is_const b 0 then some a else if is_const a 0 then some b else none
  reduce subtraction t a b =
      if is_const b 0 then some a else if same_object a b then some (zero_of t) else none
  reduce division t a b = if is_const b 1 then some a else none
  reduce other t a b = none

  abbrev pub reduce_args : List (ℕ × Value F) → Opcode → Ty → List (Value F) → Option (Value F)
  reduce_args d op t (a ∷ b ∷ []) = reduce (family op) t (resolve d a) (resolve d b)
  reduce_args d op t _ = none

  -- `_try_reduce`
  unfoldable pub try_reduce : List (ℕ × Value F) → Instruction F → Option (Value F)
  try_reduce replacements inst = reduce_args replacements inst.opcode inst.type inst.args

  abbrev pub visit_with :
      Reduction F → Instruction F → Option (Value F) → Reduction F × Option (Instruction F)
  visit_with d inst (some w) = (
    record {
      replacements = insert inst.key w d.replacements;
      reductions_count = d.reductions_count + 1;
    },
    none,
  )
  visit_with d inst none = (d, some (record inst { args = map (resolve d.replacements) inst.args }))

  -- The body of the loop of `run`.
  unfoldable pub visit : Reduction F → Instruction F → Reduction F × Option (Instruction F)
  visit d inst = visit_with d inst (try_reduce d.replacements inst)

  -- `run`: the function rewritten, and `stats["reductions"]`.
  unfoldable pub run : Function F → Function F × ℕ
  run f =
      let (d, blocks) = sweep_blocks visit start f.blocks in
      (reassign_ids (record f { blocks = blocks }), d.reductions_count)
