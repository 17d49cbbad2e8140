-- ===== src/Compiler/IrBuilder/Structured.antt =====
-- The methods on strings, loops and lists of `IRBuilder` (uhcr/compiler/ir_builder.py).
use uhcr.Prelude.{ℕ, List, [], ◌∷◌, Option, none, some, pos, length, leb, nat_beq, ◌==◌}
use uhcr.Compiler.Ir.Types.{
  Ty, Opcode, type_eq, i32, i64, ptr, string, void, is_list_type, get_element_type,
}
use uhcr.Compiler.Ir.Function.{int, Value, constant, label, argument, result_of, value_type}
use uhcr.Compiler.IrBuilder.State.{
  BlockRef, Operand, attribute_error, Exec, pure, raise, ◌>>=◌, ◌>>◌, require, emit, val,
  create_block_in,
}
use uhcr.Compiler.IrBuilder.Methods.{is_integer, element_of, jmp}

module _ {F : Type 0} where
  unfoldable pub strlen : Operand F → Exec F (Value F)
  strlen s = do vs ← val s; require (value_type vs == string); emit Opcode.strlen i64 (vs ∷ [])

  unfoldable pub strcat : Operand F → Operand F → Exec F (Value F)
  strcat a b = do
    va ← val a
    vb ← val b
    require (value_type va == string)
    require (value_type vb == string)
    emit Opcode.strcat string (va ∷ vb ∷ [])

  -- "Convert I32 to I64 if needed": an index that is no constant becomes the constant 0.
  unfoldable pub to_i64 : Value F → Value F
  to_i64 (constant i32 n) = constant i64 n
  to_i64 (label i32 s) = label i64 s
  to_i64 (argument i32 name) = constant i64 (int (pos 0))
  to_i64 (result_of k i32) = constant i64 (int (pos 0))
  to_i64 v = v

  unfoldable pub strindex : Operand F → Operand F → Exec F (Value F)
  strindex s index = do
    vs ← val s
    vidx ← val index
    require (value_type vs == string)
    require (value_type (to_i64 vidx) == i64)
    emit Opcode.strindex i32 (vs ∷ to_i64 vidx ∷ [])

  unfoldable pub strslice : Operand F → Operand F → Operand F → Exec F (Value F)
  strslice s start end = do
    vs ← val s
    vstart ← val start
    vend ← val end
    require (value_type vs == string)
    require (value_type (to_i64 vstart) == i64)
    require (value_type (to_i64 vend) == i64)
    emit Opcode.strslice string (vs ∷ to_i64 vstart ∷ to_i64 vend ∷ [])

  unfoldable pub streq : Operand F → Operand F → Exec F (Value F)
  streq a b = do
    va ← val a
    vb ← val b
    require (value_type va == string)
    require (value_type vb == string)
    emit Opcode.streq i32 (va ∷ vb ∷ [])

  unfoldable pub strhash : Operand F → Exec F (Value F)
  strhash s = do vs ← val s; require (value_type vs == string); emit Opcode.strhash i64 (vs ∷ [])

  -- The builder's function, without which the attribute lookup of `loop` fails.
  abbrev pub current_function : Option ℕ → Exec F ℕ
  current_function none = raise attribute_error
  current_function (some i) = pure i

  -- The body and exit blocks of `LoopContext`, whose loop variable is always `None`.
  unfoldable pub loop : Exec F (BlockRef × BlockRef)
  loop b =
      (do
        i ← current_function b.function
        loop_cond ← create_block_in i "loop_cond"
        loop_body ← create_block_in i "loop_body"
        loop_exit ← create_block_in i "loop_exit"
        _ ← jmp loop_cond
        pure (loop_body, loop_exit))
        b

  unfoldable pub loop_with_cond : Operand F → BlockRef → BlockRef → Exec F (Value F)
  loop_with_cond cond body_block exit_block = do
    vcond ← val cond
    require (is_integer (value_type vcond))
    emit Opcode.loop_head void (vcond ∷ label ptr body_block.name ∷ label ptr exit_block.name ∷ [])

  unfoldable pub break_loop : BlockRef → Exec F (Value F)
  break_loop target = emit Opcode.break_loop void (label ptr target.name ∷ [])

  unfoldable pub continue_loop : BlockRef → Exec F (Value F)
  continue_loop target = emit Opcode.continue_loop void (label ptr target.name ∷ [])

  -- `for val, block in zip(incoming_values, incoming_blocks)`
  unfoldable pub incoming : List (Operand F) → List BlockRef → Exec F (List (Value F))
  incoming [] blocks = pure []
  incoming (v ∷ vs) [] = pure []
  incoming (v ∷ vs) (block ∷ blocks) = do
    vval ← val v
    rest ← incoming vs blocks
    pure (vval ∷ label ptr block.name ∷ rest)

  unfoldable pub phi : List (Operand F) → List BlockRef → Ty → Exec F (Value F)
  phi incoming_values incoming_blocks result_type = do
    require (nat_beq (length incoming_values) (length incoming_blocks))
    require (leb 2 (length incoming_values))
    args ← incoming incoming_values incoming_blocks
    emit Opcode.phi result_type args

  unfoldable pub listlen : Operand F → Exec F (Value F)
  listlen lst = do
    vlst ← val lst
    require (is_list_type (value_type vlst))
    emit Opcode.listlen i64 (vlst ∷ [])

  unfoldable pub listindex : Operand F → Operand F → Exec F (Value F)
  listindex lst index = do
    vlst ← val lst
    vidx ← val index
    require (is_list_type (value_type vlst))
    require (is_integer (value_type vidx))
    elem_type ← element_of (get_element_type (value_type vlst))
    emit Opcode.listindex elem_type (vlst ∷ vidx ∷ [])

  unfoldable pub listslice : Operand F → Operand F → Operand F → Exec F (Value F)
  listslice lst start end = do
    vlst ← val lst
    vstart ← val start
    vend ← val end
    require (is_list_type (value_type vlst))
    require (is_integer (value_type vstart))
    require (is_integer (value_type vend))
    emit Opcode.listslice (value_type vlst) (vlst ∷ vstart ∷ vend ∷ [])

  unfoldable pub listappend : Operand F → Operand F → Exec F (Value F)
  listappend lst elem = do
    vlst ← val lst
    velem ← val elem
    require (is_list_type (value_type vlst))
    elem_type ← element_of (get_element_type (value_type vlst))
    require (value_type velem == elem_type)
    emit Opcode.listappend void (vlst ∷ velem ∷ [])

  unfoldable pub listpop : Operand F → Exec F (Value F)
  listpop lst = do
    vlst ← val lst
    require (is_list_type (value_type vlst))
    elem_type ← element_of (get_element_type (value_type vlst))
    emit Opcode.listpop elem_type (vlst ∷ [])

  unfoldable pub listinsert : Operand F → Operand F → Operand F → Exec F (Value F)
  listinsert lst index elem = do
    vlst ← val lst
    vidx ← val index
    velem ← val elem
    require (is_list_type (value_type vlst))
    require (is_integer (value_type vidx))
    elem_type ← element_of (get_element_type (value_type vlst))
    require (value_type velem == elem_type)
    emit Opcode.listinsert void (vlst ∷ vidx ∷ velem ∷ [])

  unfoldable pub listremove : Operand F → Operand F → Exec F (Value F)
  listremove lst elem = do
    vlst ← val lst
    velem ← val elem
    require (is_list_type (value_type vlst))
    elem_type ← element_of (get_element_type (value_type vlst))
    require (value_type velem == elem_type)
    emit Opcode.listremove void (vlst ∷ velem ∷ [])
