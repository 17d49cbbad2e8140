-- ===== src/Compiler/IrBuilder/Validated.antt =====
-- The instructions of a program one by one, under `validate_string_opcode_args` (uhcr/compiler/ir.py).
use uhcr.Prelude.{
  ℕ, zero, suc, ◌≡◌, refl, subst, Bool, true, false, ◌&&◌, List, [], ◌∷◌, some, get_elem?, ◌==◌,
  and_left, and_right,
}
use uhcr.Compiler.Ir.Types.{Ty, Opcode, i32, i64, string, type_eq}
use uhcr.Compiler.Ir.Function.{
  Value, Instruction, BasicBlock, Function, validate_string_opcode_args, value_type,
}
use uhcr.Compiler.IrBuilder.State.{init}
use uhcr.Compiler.IrBuilder.Typing.{well_typed, checked}
use uhcr.Compiler.IrBuilder.Rules.{Typed, TypedCode, TypedBlocks, TypedHeap-at}
use uhcr.Compiler.IrBuilder.Program.{BuilderCall, run, run-builder-TypedHeap}

-- The opcodes on strings.
abbrev pub on_strings : Opcode → Bool
on_strings Opcode.strlen = true
on_strings Opcode.strcat = true
on_strings Opcode.strindex = true
on_strings Opcode.strslice = true
on_strings Opcode.streq = true
on_strings Opcode.strhash = true
on_strings _ = false

on_strings-checked : (op : Opcode) → on_strings op ≡ true → checked op ≡ true
on_strings-checked Opcode.strlen h = refl
on_strings-checked Opcode.strcat h = refl
on_strings-checked Opcode.strindex h = refl
on_strings-checked Opcode.strslice h = refl
on_strings-checked Opcode.streq h = refl
on_strings-checked Opcode.strhash h = refl
on_strings-checked _ h = absurd cc

module _ {F : Type 0} where
  TypedCode-at :
      (is : List (Instruction F)) (k : ℕ) {i : Instruction F}
      → get_elem? is k ≡ some i
      → TypedCode false is
      → Typed false i.opcode i.type i.args
  TypedCode-at [] k h t = absurd cc
  TypedCode-at (j ∷ js) zero {i} h (t, ts) =
      let same : j ≡ i = cc in subst (λ z. Typed false z.opcode z.type z.args) same t
  TypedCode-at (j ∷ js) (suc k) h (t, ts) = TypedCode-at js k h ts

  TypedBlocks-at :
      (bs : List (BasicBlock F)) (k : ℕ) {b : BasicBlock F}
      → get_elem? bs k ≡ some b
      → TypedBlocks false bs
      → TypedCode false b.instructions
  TypedBlocks-at [] k h t = absurd cc
  TypedBlocks-at (c ∷ cs) zero {b} h (t, ts) =
      let same : c ≡ b = cc in subst (λ z. TypedCode false z.instructions) same t
  TypedBlocks-at (c ∷ cs) (suc k) h (t, ts) = TypedBlocks-at cs k h ts

  two_strings :
      (a b : Value F)
      → (value_type a == string && value_type b == string) ≡ true
      → (value_type a == string && (value_type b == string && true)) ≡ true
  two_strings a b h =
      rw
        (
          and_left (value_type a == string) (value_type b == string) h,
          and_right (value_type a == string) (value_type b == string) h,
        )
        refl

  well_typed-validates :
      (op : Opcode) (t : Ty) (args : List (Value F))
      → on_strings op ≡ true
      → well_typed op t args ≡ true
      → validate_string_opcode_args op args ≡ true
  unfolding well_typed validate_string_opcode_args
  well_typed-validates Opcode.strlen i64 (s ∷ []) o h = rw h refl
  well_typed-validates Opcode.strcat string (a ∷ b ∷ []) o h = two_strings a b h
  well_typed-validates Opcode.strindex i32 (s ∷ i ∷ []) o h = h
  well_typed-validates Opcode.strslice string (s ∷ i ∷ j ∷ []) o h = h
  well_typed-validates Opcode.streq i32 (a ∷ b ∷ []) o h = two_strings a b h
  well_typed-validates Opcode.strhash i64 (s ∷ []) o h = rw h refl
  well_typed-validates _ _ _ o h = absurd cc

  -- Of the instructions that a program makes the builder emit, those on strings are accepted by the
  -- module's own check `validate_string_opcode_args`, wherever they stand.
  pub run-validates :
      (cs : List (BuilderCall F)) (n j k : ℕ) (f : Function F) (b : BasicBlock F)
      (i : Instruction F)
      → get_elem? (run cs init).heap n ≡ some f
      → get_elem? f.blocks j ≡ some b
      → get_elem? b.instructions k ≡ some i
      → on_strings i.opcode ≡ true
      → validate_string_opcode_args i.opcode i.args ≡ true
  run-validates cs n j k f b i at_n at_j at_k o = well_typed-validates i.opcode i.type i.args o (
      TypedCode-at b.instructions k at_k
        (TypedBlocks-at f.blocks j at_j
          (TypedHeap-at false _ n at_n (run-builder-TypedHeap false cs (λ e. absurd cc))))
        (on_strings-checked i.opcode o))
