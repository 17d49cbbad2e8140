-- ===== src/Compiler/IrBuilder/State.antt =====
-- The state of `IRBuilder` (uhcr/compiler/ir_builder.py), and its methods' monad: a method changes
-- the state and returns or raises. The function objects live on a heap, since the module, the builder
-- and the blocks all refer to them.
use uhcr.Prelude.{
  ℕ, ◌+◌, Bool, true, false, List, [], ◌∷◌, ◌++◌, Option, none, some, String, ℤ, string_eq, length,
  get_elem?, set, Outcome, ok, err,
}
use uhcr.Prelude.Dict.{insert}
use uhcr.Compiler.Ir.Types.{Ty, Opcode, i32, f32}
use uhcr.Compiler.Ir.Function.{
  int, float, Value, constant, result_of, Instruction, Function, new_function, create_block,
  add_instruction,
}

pub data BuildError : Type 0 where
  assertion_error : BuildError
  type_error : BuildError
  value_error : BuildError
  attribute_error : BuildError

-- A block object: its function's place on the heap, its place in the function, and its label.
pub record BlockRef : Type 0 where
  pub function : ℕ
  pub index : ℕ
  pub name : String

-- `module`, `function`, `current_block`; the heap; and the identity of the next instruction.
pub record IrBuilder (F : Type 0) : Type 0 where
  pub functions_of : Option (List (String × ℕ))
  pub function : Option ℕ
  pub current_block : Option BlockRef
  pub heap : List (Function F)
  pub next_key : ℕ

-- What a caller may pass for a `Value`; `other` is an object of no accepted class.
pub data Operand (F : Type 0) : Type 0 where
  value : Value F → Operand F
  literal_int : ℤ → Operand F
  literal_float : F → Operand F
  other : Operand F

-- `Module.add_function`
abbrev pub add_function : List (String × ℕ) → String → ℕ → List (String × ℕ)
add_function fs name place = insert name place fs

abbrev pub Exec {ℓ} : Type 0 → Type ℓ → Type ℓ
Exec F A = IrBuilder F → IrBuilder F × Outcome BuildError A

module _ {F : Type 0} where
  abbrev pub pure {ℓ} : {A : Type ℓ} → A → Exec F A
  pure a b = (b, ok a)

  abbrev pub raise {ℓ} : {A : Type ℓ} → BuildError → Exec F A
  raise e b = (b, err e)

  abbrev pub and_then {ℓ κ} :
      {A : Type ℓ} {B : Type κ}
      → IrBuilder F × Outcome BuildError A
      → (A → Exec F B)
      → IrBuilder F × Outcome BuildError B
  and_then (b, ok a) next = next a b
  and_then (b, err e) next = (b, err e)

  infixl 5 ◌>>=◌ ◌>>◌
  abbrev pub ◌>>=◌ {ℓ κ} : {A : Type ℓ} {B : Type κ} → Exec F A → (A → Exec F B) → Exec F B
  ◌>>=◌ m next b = and_then (m b) next

  abbrev pub ◌>>◌ {ℓ} : {B : Type ℓ} → Exec F (Unit {0}) → Exec F B → Exec F B
  m >> n = m >>= λ _. n

  -- `assert`
  abbrev pub require : Bool → Exec F (Unit {0})
  require true = pure tt
  require false = raise assertion_error

  -- `IRBuilder.__init__`
  unfoldable pub init : IrBuilder F
  init = record {
    functions_of = none;
    function = none;
    current_block = none;
    heap = [];
    next_key = 0;
  }

  unfoldable pub new_module : Exec F (Unit {0})
  new_module b = (record b { functions_of = some [] }, ok tt)

  abbrev pub place_function : IrBuilder F → List (String × ℕ) → String → List Ty → Ty → IrBuilder F
  place_function b fs name arg_types return_type = record b {
    functions_of = some (add_function fs name (length b.heap));
    function = some (length b.heap);
    heap = b.heap ++ new_function name arg_types return_type ∷ [];
  }

  abbrev pub new_function_with :
      String
      → List Ty
      → Ty
      → IrBuilder F
      → Option (List (String × ℕ))
      → IrBuilder F × Outcome BuildError ℕ
  new_function_with name arg_types return_type b none = (b, err assertion_error)
  new_function_with name arg_types return_type b (some fs) =
      (place_function b fs name arg_types return_type, ok (length b.heap))

  unfoldable pub new_function_in : String → List Ty → Ty → Exec F ℕ
  unfolding new_function
  new_function_in name arg_types return_type b =
      new_function_with name arg_types return_type b b.functions_of

  unfoldable pub set_block : BlockRef → Exec F (Unit {0})
  set_block block b = (record b { current_block = some block }, ok tt)

  abbrev pub modify :
      (Function F → Function F) → Option (Function F) → List (Function F) → ℕ → List (Function F)
  modify h none heap i = heap
  modify h (some f) heap i = set heap i (h f)

  -- A method of the function object at a place.
  abbrev pub on_heap : (Function F → Function F) → List (Function F) → ℕ → List (Function F)
  on_heap h heap i = modify h (get_elem? heap i) heap i

  abbrev pub block_count : Option (Function F) → ℕ
  block_count none = 0
  block_count (some f) = length f.blocks

  -- `Function.create_block` of the function at a place.
  unfoldable pub create_block_in : ℕ → String → Exec F BlockRef
  unfolding create_block
  create_block_in i label b = (
    record b { heap = on_heap (λ f. create_block f label) b.heap i },
    ok (record { function = i; index = block_count (get_elem? b.heap i); name = label }),
  )

  -- The instruction object that `_emit` makes.
  abbrev pub fresh_instruction : IrBuilder F → Opcode → Ty → List (Value F) → Instruction F
  fresh_instruction b opcode type args = record {
    key = b.next_key;
    opcode = opcode;
    type = type;
    args = args;
    id = none;
  }

  abbrev pub emit_into : BlockRef → Instruction F → IrBuilder F → IrBuilder F
  emit_into at inst b = record b {
    heap = on_heap (λ f. add_instruction f at.index inst) b.heap at.function;
    next_key = b.next_key + 1;
  }

  abbrev pub emit_at :
      Opcode
      → Ty
      → List (Value F)
      → IrBuilder F
      → Option BlockRef
      → IrBuilder F × Outcome BuildError (Value F)
  emit_at opcode type args b none = (b, err assertion_error)
  emit_at opcode type args b (some at) =
      (emit_into at (fresh_instruction b opcode type args) b, ok (result_of b.next_key type))

  -- `_emit`
  unfoldable pub emit : Opcode → Ty → List (Value F) → Exec F (Value F)
  unfolding add_instruction
  emit opcode type args b = emit_at opcode type args b b.current_block

  -- `_val`
  unfoldable pub val : Operand F → Exec F (Value F)
  val (value v) = pure v
  val (literal_int n) = pure (constant i32 (int n))
  val (literal_float x) = pure (constant f32 (float x))
  val other = raise type_error
