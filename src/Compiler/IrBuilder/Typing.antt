-- ===== src/Compiler/IrBuilder/Typing.antt =====
-- What the opcodes of uhcr/compiler/ir.py ask of their operands, written down apart from the builder,
-- and which of them have their operands' types checked by `IRBuilder` (uhcr/compiler/ir_builder.py).
use uhcr.Prelude.{
  Bool, true, false, not, ◌&&◌, ◌||◌, String, string_eq, List, [], ◌∷◌, Option, none, some, length,
  leb, ◌==◌,
}
use uhcr.Compiler.Ir.Types.{
  Ty, Opcode, type_eq, i32, i64, f32, f64, v4f32, v8f32, v2f64, ptr, string, void, is_list_type,
  get_element_type,
}
use uhcr.Compiler.Ir.Function.{Value, label, value_type}

abbrev pub has_element : Option Ty → Ty → Bool
has_element none t = false
has_element (some e) t = e == t

abbrev pub integer_type : Ty → Bool
integer_type i32 = true
integer_type i64 = true
integer_type _ = false

abbrev pub float_type : Ty → Bool
float_type f32 = true
float_type f64 = true
float_type _ = false

abbrev pub wide_type : Ty → Bool
wide_type v4f32 = true
wide_type v8f32 = true
wide_type _ = false

abbrev pub fma_type : Ty → Bool
fma_type v2f64 = true
fma_type t = wide_type t

abbrev pub number_type : Ty → Bool
number_type t = integer_type t || float_type t

-- Two numbers of one type.
abbrev pub number_pair : Ty → Ty → Bool
number_pair t u = u == t && number_type t

-- A pointer and an offset.
abbrev pub address : Ty → Ty → Bool
address p o = p == ptr && integer_type o

abbrev pub condition_name : String → Bool
condition_name c =
    (c == "eq" || (c == "ne" || c == "lt")) || (c == "le" || (c == "gt" || c == "ge"))

-- The opcodes whose operands' types the builder checks, or chooses itself.
abbrev pub checked : Opcode → Bool
checked Opcode.vadd = true
checked Opcode.vsub = true
checked Opcode.vmul = true
checked Opcode.vdiv = true
checked Opcode.vfmadd = true
checked Opcode.jmp = true
checked Opcode.strlen = true
checked Opcode.strcat = true
checked Opcode.strindex = true
checked Opcode.strslice = true
checked Opcode.streq = true
checked Opcode.strhash = true
checked Opcode.loop_head = true
checked Opcode.break_loop = true
checked Opcode.continue_loop = true
checked Opcode.listlen = true
checked Opcode.listindex = true
checked Opcode.listslice = true
checked Opcode.listappend = true
checked Opcode.listpop = true
checked Opcode.listinsert = true
checked Opcode.listremove = true
checked _ = false

module _ {F : Type 0} where
  abbrev pub is_label : Value F → Bool
  is_label (label ptr l) = true
  is_label _ = false

  abbrev pub is_condition : Value F → Bool
  is_condition (label i32 c) = condition_name c
  is_condition _ = false

  -- Values of a type and labels in turn.
  abbrev pub alternates : Ty → List (Value F) → Bool
  alternates t [] = true
  alternates t (v ∷ []) = false
  alternates t (v ∷ l ∷ rest) = value_type v == t && (is_label l && alternates t rest)

  abbrev pub scalar : (Ty → Bool) → Ty → List (Value F) → Bool
  scalar p t (a ∷ b ∷ []) = value_type a == t && (value_type b == t && p t)
  scalar p t _ = false

  abbrev pub wide : Ty → List (Value F) → Bool
  wide t (a ∷ b ∷ []) = wide_type t && (value_type a == t && value_type b == t)
  wide t _ = false

  -- Does an opcode take these operands, and give a result of this type?
  unfoldable pub well_typed : Opcode → Ty → List (Value F) → Bool
  well_typed Opcode.add t args = scalar integer_type t args
  well_typed Opcode.sub t args = scalar integer_type t args
  well_typed Opcode.mul t args = scalar integer_type t args
  well_typed Opcode.div t args = scalar integer_type t args
  well_typed Opcode.fadd t args = scalar float_type t args
  well_typed Opcode.fsub t args = scalar float_type t args
  well_typed Opcode.fmul t args = scalar float_type t args
  well_typed Opcode.fdiv t args = scalar float_type t args
  well_typed Opcode.load t (p ∷ o ∷ []) = number_type t && address (value_type p) (value_type o)
  well_typed Opcode.vload t (p ∷ o ∷ []) = fma_type t && address (value_type p) (value_type o)
  well_typed Opcode.store void (v ∷ p ∷ o ∷ []) =
      number_type (value_type v) && address (value_type p) (value_type o)
  well_typed Opcode.vstore void (v ∷ p ∷ o ∷ []) =
      fma_type (value_type v) && address (value_type p) (value_type o)
  well_typed Opcode.vadd t args = wide t args
  well_typed Opcode.vsub t args = wide t args
  well_typed Opcode.vmul t args = wide t args
  well_typed Opcode.vdiv t args = wide t args
  well_typed Opcode.vfmadd t (c ∷ a ∷ b ∷ []) =
      fma_type t && (value_type c == t && (value_type a == t && value_type b == t))
  well_typed Opcode.cmp i32 (c ∷ a ∷ b ∷ []) =
      is_condition c && number_pair (value_type a) (value_type b)
  well_typed Opcode.br void (c ∷ l ∷ m ∷ []) =
      (is_label l && is_label m) && integer_type (value_type c)
  well_typed Opcode.jmp void (l ∷ []) = is_label l
  well_typed Opcode.ret void [] = true
  well_typed Opcode.ret void (v ∷ []) = not (value_type v == void)
  well_typed Opcode.matmul void (a ∷ b ∷ o ∷ []) =
      value_type a == ptr && (value_type b == ptr && value_type o == ptr)
  well_typed Opcode.relu void (a ∷ o ∷ []) = value_type a == ptr && value_type o == ptr
  well_typed Opcode.strlen i64 (s ∷ []) = value_type s == string
  well_typed Opcode.strcat string (a ∷ b ∷ []) = value_type a == string && value_type b == string
  well_typed Opcode.strindex i32 (s ∷ i ∷ []) = value_type s == string && value_type i == i64
  well_typed Opcode.strslice string (s ∷ i ∷ j ∷ []) =
      value_type s == string && (value_type i == i64 && value_type j == i64)
  well_typed Opcode.streq i32 (a ∷ b ∷ []) = value_type a == string && value_type b == string
  well_typed Opcode.strhash i64 (s ∷ []) = value_type s == string
  well_typed Opcode.loop_head void (c ∷ l ∷ m ∷ []) =
      integer_type (value_type c) && (is_label l && is_label m)
  well_typed Opcode.break_loop void (l ∷ []) = is_label l
  well_typed Opcode.continue_loop void (l ∷ []) = is_label l
  well_typed Opcode.phi t args = leb 4 (length args) && alternates t args
  well_typed Opcode.listlen i64 (l ∷ []) = is_list_type (value_type l)
  well_typed Opcode.listindex t (l ∷ i ∷ []) =
      has_element (get_element_type (value_type l)) t && integer_type (value_type i)
  well_typed Opcode.listslice t (l ∷ i ∷ j ∷ []) =
      (is_list_type t && value_type l == t)
      && (integer_type (value_type i) && integer_type (value_type j))
  well_typed Opcode.listappend void (l ∷ e ∷ []) =
      has_element (get_element_type (value_type l)) (value_type e)
  well_typed Opcode.listpop t (l ∷ []) = has_element (get_element_type (value_type l)) t
  well_typed Opcode.listinsert void (l ∷ i ∷ e ∷ []) =
      integer_type (value_type i) && has_element (get_element_type (value_type l)) (value_type e)
  well_typed Opcode.listremove void (l ∷ e ∷ []) =
      has_element (get_element_type (value_type l)) (value_type e)
  well_typed _ _ _ = false
