-- ===== src/Compiler/IrBuilder/Methods.antt =====
-- The emitting methods of `IRBuilder` (uhcr/compiler/ir_builder.py).
use uhcr.Prelude.{Bool, ◌&&◌, ◌||◌, [], ◌∷◌, Option, none, some, String, ◌==◌, if◌then◌else◌}
use uhcr.Compiler.Ir.Types.{Ty, Opcode, type_eq, i32, i64, f32, f64, v4f32, v8f32, v2f64, ptr, void}
use uhcr.Compiler.Ir.Function.{Value, label, value_type}
use uhcr.Compiler.IrBuilder.State.{
  BlockRef, Operand, value_error, Exec, pure, raise, ◌>>=◌, ◌>>◌, require, emit, val,
}

abbrev pub is_float : Ty → Bool
is_float t = t == f32 || t == f64

abbrev pub is_wide : Ty → Bool
is_wide t = t == v4f32 || t == v8f32

abbrev pub is_integer : Ty → Bool
is_integer t = t == i32 || t == i64

abbrev pub element_of : {F : Type 0} → Option Ty → Exec F Ty
element_of none = raise value_error
element_of (some t) = pure t

module _ {F : Type 0} where
  -- A scalar operation: the class of its opcode goes by the type of the first operand alone.
  unfoldable pub arithmetic : Opcode → Opcode → Operand F → Operand F → Exec F (Value F)
  arithmetic int_op float_op a b = do
    va ← val a
    vb ← val b
    emit (if is_float (value_type va) then float_op else int_op) (value_type va) (va ∷ vb ∷ [])

  unfoldable pub add : Operand F → Operand F → Exec F (Value F)
  unfolding arithmetic
  add a b = arithmetic Opcode.add Opcode.fadd a b

  unfoldable pub sub : Operand F → Operand F → Exec F (Value F)
  unfolding arithmetic
  sub a b = arithmetic Opcode.sub Opcode.fsub a b

  unfoldable pub mul : Operand F → Operand F → Exec F (Value F)
  unfolding arithmetic
  mul a b = arithmetic Opcode.mul Opcode.fmul a b

  unfoldable pub div : Operand F → Operand F → Exec F (Value F)
  unfolding arithmetic
  div a b = arithmetic Opcode.div Opcode.fdiv a b

  unfoldable pub load : Operand F → Operand F → Ty → Exec F (Value F)
  load ptr_ offset type = do
    vptr ← val ptr_
    voff ← val offset
    emit Opcode.load type (vptr ∷ voff ∷ [])

  unfoldable pub store : Operand F → Operand F → Operand F → Exec F (Value F)
  store value_ ptr_ offset = do
    vval ← val value_
    vptr ← val ptr_
    voff ← val offset
    emit Opcode.store void (vval ∷ vptr ∷ voff ∷ [])

  unfoldable pub vload : Operand F → Operand F → Ty → Exec F (Value F)
  vload ptr_ offset type = do
    vptr ← val ptr_
    voff ← val offset
    emit Opcode.vload type (vptr ∷ voff ∷ [])

  unfoldable pub vstore : Operand F → Operand F → Operand F → Exec F (Value F)
  vstore value_ ptr_ offset = do
    vval ← val value_
    vptr ← val ptr_
    voff ← val offset
    emit Opcode.vstore void (vval ∷ vptr ∷ voff ∷ [])

  -- A vector operation: both operands have one of the two wide types.
  unfoldable pub vector : Opcode → Operand F → Operand F → Exec F (Value F)
  vector op a b = do
    va ← val a
    vb ← val b
    require (value_type va == value_type vb && is_wide (value_type va))
    emit op (value_type va) (va ∷ vb ∷ [])

  unfoldable pub vadd : Operand F → Operand F → Exec F (Value F)
  unfolding vector
  vadd a b = vector Opcode.vadd a b

  unfoldable pub vsub : Operand F → Operand F → Exec F (Value F)
  unfolding vector
  vsub a b = vector Opcode.vsub a b

  unfoldable pub vmul : Operand F → Operand F → Exec F (Value F)
  unfolding vector
  vmul a b = vector Opcode.vmul a b

  unfoldable pub vdiv : Operand F → Operand F → Exec F (Value F)
  unfolding vector
  vdiv a b = vector Opcode.vdiv a b

  unfoldable pub vfmadd : Operand F → Operand F → Operand F → Exec F (Value F)
  vfmadd acc a b = do
    vacc ← val acc
    va ← val a
    vb ← val b
    require (
        (value_type vacc == value_type va && value_type va == value_type vb)
        && (is_wide (value_type va) || value_type va == v2f64))
    emit Opcode.vfmadd (value_type va) (vacc ∷ va ∷ vb ∷ [])

  unfoldable pub cmp : String → Operand F → Operand F → Exec F (Value F)
  cmp cond a b = do va ← val a; vb ← val b; emit Opcode.cmp i32 (label i32 cond ∷ va ∷ vb ∷ [])

  unfoldable pub br : Operand F → BlockRef → BlockRef → Exec F (Value F)
  br cond true_block false_block = do
    vcond ← val cond
    emit Opcode.br void (vcond ∷ label ptr true_block.name ∷ label ptr false_block.name ∷ [])

  unfoldable pub jmp : BlockRef → Exec F (Value F)
  jmp block = emit Opcode.jmp void (label ptr block.name ∷ [])

  unfoldable pub ret : Option (Operand F) → Exec F (Value F)
  ret none = emit Opcode.ret void []
  ret (some v) = do vval ← val v; emit Opcode.ret void (vval ∷ [])

  unfoldable pub matmul : Operand F → Operand F → Operand F → Exec F (Value F)
  matmul a b out = do
    va ← val a
    vb ← val b
    vout ← val out
    emit Opcode.matmul void (va ∷ vb ∷ vout ∷ [])

  unfoldable pub relu : Operand F → Operand F → Exec F (Value F)
  relu a out = do va ← val a; vout ← val out; emit Opcode.relu void (va ∷ vout ∷ [])
