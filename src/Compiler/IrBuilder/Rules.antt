-- ===== src/Compiler/IrBuilder/Rules.antt =====
-- Rules for the types of the instructions that a method of `IRBuilder` (uhcr/compiler/ir_builder.py)
-- leaves on the heap.
use uhcr.Prelude.{
  ℕ, zero, suc, ◌≡◌, refl, subst, Bool, true, false, ◌||◌, arith, List, [], ◌∷◌, ◌++◌, Option, none,
  some, String, get_elem?, set, Outcome, ok, err,
}
use uhcr.Compiler.Ir.Types.{Ty, Opcode, type_eq, i32, f32}
use uhcr.Compiler.Ir.Function.{
  Value, value_type, constant, Instruction, BasicBlock, Function, add_instruction, create_block,
  append_at, assign_id, new_function,
}
use uhcr.Compiler.IrBuilder.State.{
  IrBuilder, BlockRef, Operand, Exec, BuildError, pure, and_then, ◌>>=◌, ◌>>◌, require, emit, val,
  create_block_in, modify, new_function_in, new_module, set_block,
}
use uhcr.Compiler.IrBuilder.Methods.{element_of}
use uhcr.Compiler.Ir.Function.{int, float}
use uhcr.Compiler.IrBuilder.State.{
  value, literal_int, literal_float, other, emit_at, new_function_with,
}
use uhcr.Compiler.IrBuilder.Typing.{well_typed, checked}

-- The type of the value that an operand is read as, where it is one.
abbrev pub operand_type : {F : Type 0} → Operand F → Option Ty
operand_type (value v) = some (value_type v)
operand_type (literal_int n) = some i32
operand_type (literal_float x) = some f32
operand_type other = none

module _ {F : Type 0} (strict : Bool) where
  -- An instruction is well typed: any that is `strict`, else one of the opcodes that are checked.
  abbrev pub Typed : Opcode → Ty → List (Value F) → Type 0
  Typed op t args = (strict || checked op) ≡ true → well_typed op t args ≡ true

  abbrev pub TypedCode : List (Instruction F) → Type 0
  TypedCode [] = Unit
  TypedCode (i ∷ is) = Typed i.opcode i.type i.args × TypedCode is

  abbrev pub TypedBlocks : List (BasicBlock F) → Type 0
  TypedBlocks [] = Unit
  TypedBlocks (b ∷ bs) = TypedCode b.instructions × TypedBlocks bs

  abbrev pub TypedHeap : List (Function F) → Type 0
  TypedHeap [] = Unit
  TypedHeap (f ∷ fs) = TypedBlocks f.blocks × TypedHeap fs

  TypedCode-append :
      (is : List (Instruction F)) (i : Instruction F)
      → TypedCode is
      → Typed i.opcode i.type i.args
      → TypedCode (is ++ i ∷ [])
  TypedCode-append [] i t h = (h, tt)
  TypedCode-append (j ∷ js) i (t, ts) h = (t, TypedCode-append js i ts h)

  TypedBlocks-append_at :
      (bs : List (BasicBlock F)) (k : ℕ) (i : Instruction F)
      → TypedBlocks bs
      → Typed i.opcode i.type i.args
      → TypedBlocks (append_at bs k i)
  TypedBlocks-append_at [] k i t h = tt
  TypedBlocks-append_at (b ∷ bs) zero i (t, ts) h = (TypedCode-append b.instructions i t h, ts)
  TypedBlocks-append_at (b ∷ bs) (suc k) i (t, ts) h = (t, TypedBlocks-append_at bs k i ts h)

  TypedBlocks-new :
      (bs : List (BasicBlock F)) (l : String)
      → TypedBlocks bs
      → TypedBlocks (bs ++ record { label = l; instructions = [] } ∷ [])
  TypedBlocks-new [] l t = (tt, tt)
  TypedBlocks-new (b ∷ bs) l (t, ts) = (t, TypedBlocks-new bs l ts)

  TypedHeap-new :
      (fs : List (Function F)) (f : Function F)
      → TypedHeap fs
      → TypedBlocks f.blocks
      → TypedHeap (fs ++ f ∷ [])
  TypedHeap-new [] f t h = (h, tt)
  TypedHeap-new (g ∷ gs) f (t, ts) h = (t, TypedHeap-new gs f ts h)

  TypedHeap-set :
      (fs : List (Function F)) (k : ℕ) (f : Function F)
      → TypedHeap fs
      → TypedBlocks f.blocks
      → TypedHeap (set fs k f)
  TypedHeap-set [] k f t h = tt
  TypedHeap-set (g ∷ gs) zero f (t, ts) h = (h, ts)
  TypedHeap-set (g ∷ gs) (suc k) f (t, ts) h = (t, TypedHeap-set gs k f ts h)

  pub TypedHeap-at :
      (fs : List (Function F)) (k : ℕ) {f : Function F}
      → get_elem? fs k ≡ some f
      → TypedHeap fs
      → TypedBlocks f.blocks
  TypedHeap-at [] k h t = absurd cc
  TypedHeap-at (g ∷ gs) zero {f} h (t, ts) =
      let same : g ≡ f = cc in subst (λ z. TypedBlocks z.blocks) same t
  TypedHeap-at (g ∷ gs) (suc k) h (t, ts) = TypedHeap-at gs k h ts

  TypedHeap-modify :
      (h : Function F → Function F) (fs : List (Function F)) (k : ℕ)
      → ((f : Function F) → TypedBlocks f.blocks → TypedBlocks (h f).blocks)
      → (o : Option (Function F)) → get_elem? fs k ≡ o
      → TypedHeap fs
      → TypedHeap (modify h o fs k)
  TypedHeap-modify h fs k keep none e t = t
  TypedHeap-modify h fs k keep (some f) e t =
      TypedHeap-set fs k (h f) t (keep f (TypedHeap-at fs k e t))

  abbrev pub Emits {ℓ} : {A : Type ℓ} → Exec F A → Type 0
  Emits m = (b : IrBuilder F) → TypedHeap b.heap → TypedHeap (m b).0.heap

  abbrev Kept {ℓ} : {A : Type ℓ} → IrBuilder F × Outcome BuildError A → Type 0
  Kept out = TypedHeap out.0.heap

  and_then-Kept {ℓ κ} :
      {A : Type ℓ} {B : Type κ} (out : IrBuilder F × Outcome BuildError A) (k : A → Exec F B)
      → Kept out
      → ((a : A) → Emits (k a))
      → Kept (and_then out k)
  and_then-Kept (b, ok a) k t h = h a b t
  and_then-Kept (b, err e) k t h = t

  pub bind-Emits {ℓ κ} :
      {A : Type ℓ} {B : Type κ} (m : Exec F A) (k : A → Exec F B)
      → Emits m
      → ((a : A) → Emits (k a))
      → Emits (m >>= k)
  bind-Emits m k h g b t = and_then-Kept (m b) k (h b t) g

  pub pure-Emits {ℓ} : {A : Type ℓ} (a : A) → Emits (pure {F = F} a)
  pure-Emits a b t = t

  pub require-Emits {ℓ} :
      {B : Type ℓ} (c : Bool) (k : Exec F B) → (c ≡ true → Emits k) → Emits (require c >> k)
  require-Emits true k h b t = h refl b t
  require-Emits false k h b t = t

  pub val-Emits {ℓ} :
      {B : Type ℓ} (o : Operand F) (k : Value F → Exec F B)
      → ((v : Value F) → Emits (k v))
      → Emits (val o >>= k)
  unfolding val
  val-Emits (value v) k h b t = h v b t
  val-Emits (literal_int n) k h b t = h (constant i32 (int n)) b t
  val-Emits (literal_float x) k h b t = h (constant f32 (float x)) b t
  val-Emits other k h b t = t

  pub read-Emits {ℓ} :
      {B : Type ℓ} (o : Operand F) (k : Value F → Exec F B)
      → ((v : Value F) → operand_type o ≡ some (value_type v) → Emits (k v))
      → Emits (val o >>= k)
  unfolding val
  read-Emits (value v) k h b t = h v refl b t
  read-Emits (literal_int n) k h b t = h (constant i32 (int n)) refl b t
  read-Emits (literal_float x) k h b t = h (constant f32 (float x)) refl b t
  read-Emits other k h b t = t

  pub element_of-Emits {ℓ} :
      {B : Type ℓ} (o : Option Ty) (k : Ty → Exec F B)
      → ((u : Ty) → o ≡ some u → Emits (k u))
      → Emits (element_of o >>= k)
  element_of-Emits none k h b t = t
  element_of-Emits (some u) k h b t = h u refl b t

  emit_at-Kept :
      (op : Opcode) (type : Ty) (args : List (Value F))
      → Typed op type args
      → (b : IrBuilder F) (o : Option BlockRef) → TypedHeap b.heap
      → Kept (emit_at op type args b o)
  unfolding add_instruction assign_id
  emit_at-Kept op type args h b none t = t
  emit_at-Kept op type args h b (some at) t =
      TypedHeap-modify _ b.heap at.function
        (λ f. λ ts. TypedBlocks-append_at f.blocks at.index _ ts h) _ refl t

  pub emit-Emits :
      (op : Opcode) (type : Ty) (args : List (Value F))
      → well_typed op type args ≡ true
      → Emits (emit op type args)
  unfolding emit
  emit-Emits op type args h b t = emit_at-Kept op type args (λ _. h) b b.current_block t

  -- An instruction that only a caller can make well typed.
  pub unchecked-Emits :
      (op : Opcode) (type : Ty) (args : List (Value F))
      → checked op ≡ false
      → (strict ≡ true → well_typed op type args ≡ true)
      → Emits (emit op type args)
  unfolding emit
  unchecked-Emits op type args n h b t =
      emit_at-Kept op type args (λ c. h (strict_of c)) b b.current_block t
    where
      strict_of : (strict || checked op) ≡ true → strict ≡ true
      strict_of c = ground (arith, c, n)

  pub create_block_in-Emits : (i : ℕ) (l : String) → Emits (create_block_in {F = F} i l)
  unfolding create_block_in create_block
  create_block_in-Emits i l b t =
      TypedHeap-modify _ b.heap i (λ f. λ ts. TypedBlocks-new f.blocks l ts) _ refl t

  pub set_block-Emits : (block : BlockRef) → Emits (set_block {F = F} block)
  unfolding set_block
  set_block-Emits block b t = t

  pub new_module-Emits : Emits (new_module {F = F})
  unfolding new_module
  new_module-Emits b t = t

  new_function_with-Kept :
      (name : String) (ts : List Ty) (u : Ty) (b : IrBuilder F) (o : Option (List (String × ℕ)))
      → TypedHeap b.heap
      → Kept (new_function_with name ts u b o)
  unfolding new_function
  new_function_with-Kept name ts u b none t = t
  new_function_with-Kept name ts u b (some fs) t =
      TypedHeap-new b.heap (new_function name ts u) t tt

  pub new_function_in-Emits :
      (name : String) (ts : List Ty) (u : Ty) → Emits (new_function_in {F = F} name ts u)
  unfolding new_function_in
  new_function_in-Emits name ts u b t = new_function_with-Kept name ts u b b.functions_of t
