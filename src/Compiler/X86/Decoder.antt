-- ===== src/Compiler/X86/Decoder.antt =====
-- A decoder for the instructions that the program uses, after the x86-64 instruction format and apart
-- from the assembler: prefix, opcode, ModRM, SIB, displacement, immediate.
use uhcr.Prelude.{
  ℕ, zero, suc, ◌+◌, ◌-◌, ◌*◌, ◌/◌, ◌%◌, ◌^◌, List, [], ◌∷◌, Option, none, some, ℤ, pos, negsuc,
  ltb, nat_beq, if◌then◌else◌, ◌&&◌,
}

-- A register, or the memory at a base register and a displacement.
pub data Place : Type 0 where
  register : ℕ → Place
  memory : ℕ → ℤ → Place

pub data Instr : Type 0 where
  push pop : ℕ → Instr
  ret : Instr
  add_to sub_to mov_to cmp_to : Place → ℕ → Instr
  mov_from imul : ℕ → Place → Instr
  mov_imm : ℕ → ℤ → Instr
  add_imm sub_imm cmp_imm : Place → ℤ → Instr
  jump : ℤ → Instr
  jump_if : ℕ → ℤ → Instr
  vmovups_from : ℕ → Place → Instr
  vmovups_to : Place → ℕ → Instr
  vaddps vmulps vsubps vdivps vfmadd213ps vfmadd213pd : ℕ → ℕ → Place → Instr

abbrev pub Decoded : Type 0 → Type 0
Decoded A = Option (A × List ℕ)

-- Hand the value and the rest on.
abbrev pub with_rest {ℓ} :
    {A : Type 0} {B : Type ℓ} → Decoded A → (A → List ℕ → Option B) → Option B
with_rest none k = none
with_rest (some (a, rest)) k = k a rest

-- `n` bytes, the lowest first.
abbrev pub unsigned : ℕ → List ℕ → Decoded ℕ
unsigned zero bs = some (0, bs)
unsigned (suc n) [] = none
unsigned (suc n) (b ∷ bs) = with_rest (unsigned n bs) (λ u. λ rest. some (b + 256 * u, rest))

-- Two's complement.
abbrev pub as_signed : ℕ → ℕ → ℤ
as_signed n u = if ltb u (256 ^ n / 2) then pos u else negsuc (256 ^ n - 1 - u)

abbrev pub signed : ℕ → List ℕ → Decoded ℤ
signed n bs = with_rest (unsigned n bs) (λ u. λ rest. some (as_signed n u, rest))

-- The base of an address: the low three bits 4 ask for a SIB byte, here one without an index.
abbrev pub base_of : ℕ → ℕ → List ℕ → Decoded ℕ
base_of b low bs = if nat_beq low 4 then sib b bs else some (b * 8 + low, bs)
  where
    sib : ℕ → List ℕ → Decoded ℕ
    sib b [] = none
    sib b (s ∷ bs) = if nat_beq (s / 8) 4 then some (b * 8 + s % 8, bs) else none

-- The place that ModRM names, by its mode, the extension bit of `rm`, and the low bits.
abbrev pub place : ℕ → ℕ → ℕ → List ℕ → Decoded Place
place zero b low bs =
    if nat_beq low 5
    then none
    else with_rest (base_of b low bs) (λ base. λ rest. some (memory base (pos 0), rest))
place (suc zero) b low bs =
    with_rest (base_of b low bs)
      (λ base. λ rest. with_rest (signed 1 rest) (λ d. λ rest. some (memory base d, rest)))
place (suc (suc zero)) b low bs =
    with_rest (base_of b low bs)
      (λ base. λ rest. with_rest (signed 4 rest) (λ d. λ rest. some (memory base d, rest)))
place _ b low bs = some (register (b * 8 + low), bs)

-- ModRM with its extension bits: the register field and the place.
abbrev pub modrm : ℕ → ℕ → List ℕ → Decoded (ℕ × Place)
modrm r b [] = none
modrm r b (m ∷ bs) =
    with_rest (place (m / 64) b (m % 8) bs) (λ p. λ rest. some ((r * 8 + m / 8 % 8, p), rest))

-- An instruction on a place and a register.
abbrev pub on_place : (ℕ → Place → Instr) → Decoded (ℕ × Place) → Decoded Instr
on_place make operands = with_rest operands (λ (r, p). λ rest. some (make r p, rest))

-- The instructions of opcodes 0x81 and 0x83 go by the register field.
abbrev pub group : ℕ → Place → ℤ → Option Instr
group zero p n = some (add_imm p n)
group (suc (suc (suc (suc (suc zero))))) p n = some (sub_imm p n)
group (suc (suc (suc (suc (suc (suc (suc zero))))))) p n = some (cmp_imm p n)
group _ p n = none

abbrev pub grouped : Option Instr → List ℕ → Decoded Instr
grouped none rest = none
grouped (some i) rest = some (i, rest)

abbrev pub immediate : ℕ → Decoded (ℕ × Place) → Decoded Instr
immediate n operands =
    with_rest operands
      (λ (r, p). λ rest. with_rest (signed n rest) (λ z. λ rest. grouped (group (r % 8) p z) rest))

-- The instructions with 64-bit operands, under REX.W.
abbrev pub wide_opcode : ℕ → ℕ → ℕ → List ℕ → Decoded Instr
wide_opcode r b op bs =
    if nat_beq (op / 8) 23
    then with_rest (signed 8 bs) (λ z. λ rest. some (mov_imm (b * 8 + op % 8) z, rest))
    else if nat_beq op 1
    then on_place (λ r. λ p. add_to p r) (modrm r b bs)
    else if nat_beq op 41
    then on_place (λ r. λ p. sub_to p r) (modrm r b bs)
    else if nat_beq op 57
    then on_place (λ r. λ p. cmp_to p r) (modrm r b bs)
    else if nat_beq op 137
    then on_place (λ r. λ p. mov_to p r) (modrm r b bs)
    else if nat_beq op 139
    then on_place mov_from (modrm r b bs)
    else if nat_beq op 129
    then immediate 4 (modrm r b bs)
    else if nat_beq op 131
    then immediate 1 (modrm r b bs)
    else none

-- The second opcode byte, after 0x0F.
abbrev pub second_opcode : ℕ → ℕ → ℕ → List ℕ → Decoded Instr
second_opcode w r b [] = none
second_opcode w r b (op ∷ bs) =
    if nat_beq (op / 16) 8
    then with_rest (signed 4 bs) (λ z. λ rest. some (jump_if (op % 16) z, rest))
    else if nat_beq op 175 && nat_beq w 1
    then on_place imul (modrm r b bs)
    else none

-- An opcode (no index register is in use), with the bits W, R and B of its REX prefix.
abbrev pub opcode : ℕ → ℕ → ℕ → ℕ → List ℕ → Decoded Instr
opcode w r b op bs =
    if nat_beq (op / 8) 10
    then some (push (b * 8 + op % 8), bs)
    else if nat_beq (op / 8) 11
    then some (pop (b * 8 + op % 8), bs)
    else if nat_beq op 195
    then some (ret, bs)
    else if nat_beq op 233
    then with_rest (signed 4 bs) (λ z. λ rest. some (jump z, rest))
    else if nat_beq op 15
    then second_opcode w r b bs
    else if nat_beq w 1
    then wide_opcode r b op bs
    else none

abbrev pub prefixed : ℕ → List ℕ → Decoded Instr
prefixed p [] = none
prefixed p (op ∷ bs) =
    if nat_beq (p / 2 % 2) 0 then opcode (p / 8 % 2) (p / 4 % 2) (p % 2) op bs else none

-- The vector instructions, by map, mandatory prefix, W, second source and opcode.
abbrev pub vector_opcode : ℕ → ℕ → ℕ → ℕ → ℕ → Decoded (ℕ × Place) → Decoded Instr
vector_opcode map_ pp w v op operands =
    if nat_beq map_ 1 && nat_beq pp 0
    then (if nat_beq op 16 && nat_beq v 0
        then on_place vmovups_from operands
        else if nat_beq op 17 && nat_beq v 0
        then on_place (λ r. λ p. vmovups_to p r) operands
        else if nat_beq op 88
        then on_place (λ r. vaddps r v) operands
        else if nat_beq op 89
        then on_place (λ r. vmulps r v) operands
        else if nat_beq op 92
        then on_place (λ r. vsubps r v) operands
        else if nat_beq op 94
        then on_place (λ r. vdivps r v) operands
        else none)
    else if nat_beq map_ 2 && (nat_beq pp 1 && nat_beq op 168)
    then (if nat_beq w 0
        then on_place (λ r. vfmadd213ps r v) operands
        else on_place (λ r. vfmadd213pd r v) operands)
    else none

-- The three-byte VEX prefix: bits R, X, B are inverted, and so is the second source; L asks for ymm.
abbrev pub vex : List ℕ → Decoded Instr
vex (x ∷ y ∷ op ∷ bs) =
    if nat_beq (y / 4 % 2) 1 && nat_beq (x / 64 % 2) 1
    then vector_opcode (x % 32) (y % 4) (y / 128) (15 - y / 8 % 16) op
        (modrm (1 - x / 128) (1 - x / 32 % 2) bs)
    else none
vex _ = none

-- One instruction and the bytes after it.
unfoldable pub decode : List ℕ → Decoded Instr
decode [] = none
decode (p ∷ bs) =
    if nat_beq p 196
    then vex bs
    else if nat_beq (p / 16) 4
    then prefixed p bs
    else opcode 0 0 0 p bs

-- All the instructions of a piece of code, of which each takes a byte or more.
unfoldable pub disassemble : ℕ → List ℕ → Option (List Instr)
disassemble n [] = some []
disassemble zero (b ∷ bs) = none
disassemble (suc n) (b ∷ bs) = then_more (disassemble n) (decode (b ∷ bs))
  where
    then_more : (List ℕ → Option (List Instr)) → Decoded Instr → Option (List Instr)
    then_more more none = none
    then_more more (some (i, rest)) = consed i (more rest)
      where
        consed : Instr → Option (List Instr) → Option (List Instr)
        consed i none = none
        consed i (some is) = some (i ∷ is)
