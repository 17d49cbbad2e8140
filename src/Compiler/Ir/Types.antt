-- ===== src/Compiler/Ir/Types.antt =====
-- Types and opcodes of the intermediate representation (uhcr/compiler/ir.py).
use uhcr.Prelude.{
  ℕ, ◌≡◌, ◌↔◌, refl, ap, sym, ◌∙◌, Bool, true, false, List, [], ◌∷◌, Option, none, some, Eq,
  nat_beq, nat_beq_iff, arith, get_or,
}

-- The enumeration `Type`.
pub data Ty : Type 0 where
  i32 i64 f32 f64 v4f32 v2f64 v8f32 v4i32 v8i16 v16i8 ptr string list_i32 list_i64 list_f32 : Ty
  list_f64 list_string void : Ty

-- The enumeration `Opcode`.
pub data Opcode : Type 0 where
  add sub mul div fadd fsub fmul fdiv load store vload vstore vadd vsub vmul vdiv vfmadd : Opcode
  strlen strcat strindex strslice streq strhash cmp jmp br ret loop_head break_loop : Opcode
  continue_loop phi listlen listindex listslice listappend listpop listinsert listremove : Opcode
  matmul relu : Opcode

-- An enumeration's members compare by identity: here by their place in the list.
abbrev type_code : Ty → ℕ
type_code i32 = 0
type_code i64 = 1
type_code f32 = 2
type_code f64 = 3
type_code v4f32 = 4
type_code v2f64 = 5
type_code v8f32 = 6
type_code v4i32 = 7
type_code v8i16 = 8
type_code v16i8 = 9
type_code ptr = 10
type_code string = 11
type_code list_i32 = 12
type_code list_i64 = 13
type_code list_f32 = 14
type_code list_f64 = 15
type_code list_string = 16
type_code void = 17

types : List Ty
types =
    i32 ∷ i64 ∷ f32 ∷ f64 ∷ v4f32 ∷ v2f64 ∷ v8f32 ∷ v4i32 ∷ v8i16 ∷ v16i8 ∷ ptr ∷ string ∷ list_i32
    ∷ list_i64 ∷ list_f32 ∷ list_f64 ∷ list_string ∷ void ∷ []

type_at : (x : Ty) → get_or types (type_code x) i32 ≡ x
unfolding types
type_at i32 = refl
type_at _ = refl

pub type_beq_iff : (a b : Ty) → (nat_beq (type_code a) (type_code b) ≡ true) ↔ (a ≡ b)
type_beq_iff a b = (
  (λ h. sym (type_at a) ∙ ap (λ c. get_or types c i32) ((nat_beq_iff _ _).0 h) ∙ type_at b),
  λ e. (nat_beq_iff _ _).1 (ap type_code e),
)

instance abbrev pub type_eq : Eq Ty
type_eq = record { beq = λ a b. nat_beq (type_code a) (type_code b); beq_iff = type_beq_iff }

-- An enumeration's members compare by identity: here by their place in the list.
abbrev opcode_code : Opcode → ℕ
opcode_code add = 0
opcode_code sub = 1
opcode_code mul = 2
opcode_code div = 3
opcode_code fadd = 4
opcode_code fsub = 5
opcode_code fmul = 6
opcode_code fdiv = 7
opcode_code load = 8
opcode_code store = 9
opcode_code vload = 10
opcode_code vstore = 11
opcode_code vadd = 12
opcode_code vsub = 13
opcode_code vmul = 14
opcode_code vdiv = 15
opcode_code vfmadd = 16
opcode_code strlen = 17
opcode_code strcat = 18
opcode_code strindex = 19
opcode_code strslice = 20
opcode_code streq = 21
opcode_code strhash = 22
opcode_code cmp = 23
opcode_code jmp = 24
opcode_code br = 25
opcode_code ret = 26
opcode_code loop_head = 27
opcode_code break_loop = 28
opcode_code continue_loop = 29
opcode_code phi = 30
opcode_code listlen = 31
opcode_code listindex = 32
opcode_code listslice = 33
opcode_code listappend = 34
opcode_code listpop = 35
opcode_code listinsert = 36
opcode_code listremove = 37
opcode_code matmul = 38
opcode_code relu = 39

opcodes : List Opcode
opcodes =
    add ∷ sub ∷ mul ∷ div ∷ fadd ∷ fsub ∷ fmul ∷ fdiv ∷ load ∷ store ∷ vload ∷ vstore ∷ vadd ∷ vsub
    ∷ vmul ∷ vdiv ∷ vfmadd ∷ strlen ∷ strcat ∷ strindex ∷ strslice ∷ streq ∷ strhash ∷ cmp ∷ jmp
    ∷ br ∷ ret ∷ loop_head ∷ break_loop ∷ continue_loop ∷ phi ∷ listlen ∷ listindex ∷ listslice
    ∷ listappend ∷ listpop ∷ listinsert ∷ listremove ∷ matmul ∷ relu ∷ []

opcode_at : (x : Opcode) → get_or opcodes (opcode_code x) add ≡ x
unfolding opcodes
opcode_at add = refl
opcode_at _ = refl

pub opcode_beq_iff : (a b : Opcode) → (nat_beq (opcode_code a) (opcode_code b) ≡ true) ↔ (a ≡ b)
opcode_beq_iff a b = (
  (λ h. sym (opcode_at a) ∙ ap (λ c. get_or opcodes c add) ((nat_beq_iff _ _).0 h) ∙ opcode_at b),
  λ e. (nat_beq_iff _ _).1 (ap opcode_code e),
)

instance abbrev pub opcode_eq : Eq Opcode
opcode_eq = record {
  beq = λ a b. nat_beq (opcode_code a) (opcode_code b);
  beq_iff = opcode_beq_iff;
}

-- `ListType.from_element_type`; `none` is the `ValueError`.
unfoldable pub from_element_type : Ty → Option Ty
from_element_type i32 = some list_i32
from_element_type i64 = some list_i64
from_element_type f32 = some list_f32
from_element_type f64 = some list_f64
from_element_type string = some list_string
from_element_type _ = none

-- `ListType.get_element_type`; `none` is the `ValueError`.
unfoldable pub get_element_type : Ty → Option Ty
get_element_type list_i32 = some i32
get_element_type list_i64 = some i64
get_element_type list_f32 = some f32
get_element_type list_f64 = some f64
get_element_type list_string = some string
get_element_type _ = none

-- `ListType.is_list_type`
unfoldable pub is_list_type : Ty → Bool
is_list_type list_i32 = true
is_list_type list_i64 = true
is_list_type list_f32 = true
is_list_type list_f64 = true
is_list_type list_string = true
is_list_type _ = false

-- The two tables of `ListType` are inverse to each other, and the list types are exactly the types
-- that have an element type.
pub list_type_tables :
    (t e : Ty)
    → ((from_element_type e ≡ some t) ↔ (get_element_type t ≡ some e))
      × (is_list_type t ≡ false → get_element_type t ≡ none)
      × (get_element_type t ≡ none → is_list_type t ≡ false)
unfolding from_element_type get_element_type is_list_type
list_type_tables t e = ground arith
