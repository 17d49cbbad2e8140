-- ===== src/Compiler/X86/Instructions.antt =====
-- The forms of the instructions that the assembler (uhcr/compiler/x86_64/assembler.py) writes, and how
-- the decoder reads them.
use uhcr.Prelude.{
  ℕ, suc, ◌+◌, ◌-◌, ◌*◌, ◌/◌, ◌%◌, ◌<◌, ◌≤◌, ◌≡◌, ◌∙◌, refl, ap, true, false, List, [], ◌∷◌, ◌++◌,
  some, ℤ, ltb, nat_beq, arith, Bool-cases, inl, inr,
}
use uhcr.Compiler.X86.Assembler.{
  Asm, ◌>>◌, write_byte, write_bytes, write_rex, encode_modrm, rex, vex3,
}
use uhcr.Compiler.X86.Methods.{register_form, vector_form, memory_operand}
use uhcr.Compiler.X86.Fields.{rex-wide, rex-low, rex-high, vex3-fields, low-modulus}
use uhcr.Compiler.X86.Decoder.{
  Instr, Decoded, Place, register, memory, decode, opcode, modrm, on_place, vector_opcode,
}
use uhcr.Compiler.X86.Writes.{
  Writes, >>-Writes, nothing-Writes, write_byte-Writes, write_bytes-Writes, InRange,
}
use uhcr.Compiler.X86.Operands.{modrm-parts, modrm-registers, Emitted, memory_operand-Emitted}
use Prim.Native.Nat.{bit_and}

abbrev pub Encodes : Asm → Instr → Type 0
Encodes m i = Emitted m decode i

pub wide_prefix :
    {r b : ℕ} (op : ℕ) (bs : List ℕ)
    → r < 16
    → b < 16
    → decode (suc (71 + 4 * (r / 8) + b / 8) ∷ op ∷ bs) ≡ opcode 1 (r / 8) (b / 8) op bs
unfolding decode
wide_prefix {r} {b} op bs hr hb =
    let p = suc (71 + 4 * (r / 8) + b / 8) in
    let no_vex : nat_beq p 196 ≡ false = ground arith in
    let is_rex : p / 16 ≡ 4 = omega arith in
    let bit_x : p / 2 % 2 ≡ 0 = omega arith in
    let bit_w : p / 8 % 2 ≡ 1 = omega arith in
    let bit_r : p / 4 % 2 ≡ r / 8 = omega arith in
    let bit_b : p % 2 ≡ b / 8 = omega arith in rw (no_vex, is_rex, bit_x, bit_w, bit_r, bit_b) refl

pub write_wide-Writes :
    {r b : ℕ}
    → r < 16
    → b < 16
    → Writes (write_rex (rex true r b 0)) (suc (71 + 4 * (r / 8) + b / 8) ∷ [])
write_wide-Writes hr hb = rw (rex-wide hr hb) (write_byte-Writes (omega arith))

modrm_byte-Writes :
    {r b : ℕ} → r < 16 → b < 16 → Writes (write_byte (encode_modrm 3 r b)) (encode_modrm 3 r b ∷ [])
modrm_byte-Writes hr hb =
    let (_, _, _, small) = modrm-parts {k = 3} (omega arith) hr hb in write_byte-Writes small

-- REX.W, an opcode byte and two registers, where the decoder reads the opcode so.
pub register_form-Encodes :
    (op : ℕ) (make : ℕ → Place → Instr) {r b : ℕ}
    → r < 16
    → b < 16
    → op < 256
    → ((x y : ℕ) (bs : List ℕ) → opcode 1 x y op bs ≡ on_place make (modrm x y bs))
    → Encodes (register_form op r b) (make r (register b))
register_form-Encodes op make {r} {b} hr hb small reads = (
  _,
  >>-Writes (>>-Writes (write_wide-Writes hr hb) (write_byte-Writes small))
      (modrm_byte-Writes hr hb),
  λ rest.
      wide_prefix op (encode_modrm 3 r b ∷ rest) hr hb
      ∙ reads (r / 8) (b / 8) (encode_modrm 3 r b ∷ rest)
      ∙ ap (on_place make) (modrm-registers rest hr hb),
)

-- REX.W, an opcode byte and memory.
pub memory_form-Encodes :
    (op : ℕ) (make : ℕ → Place → Instr) {r b : ℕ} (z : ℤ)
    → r < 16
    → b < 16
    → op < 256
    → InRange 4 z
    → ((x y : ℕ) (bs : List ℕ) → opcode 1 x y op bs ≡ on_place make (modrm x y bs))
    → Encodes
        (write_rex (rex true r b 0) >> write_byte op >> memory_operand r b z)
        (make r (memory b z))
memory_form-Encodes op make {r} {b} z hr hb small h reads =
    let (bs, written, read) = memory_operand-Emitted hr hb z h in
    (
      _,
      >>-Writes (>>-Writes (write_wide-Writes hr hb) (write_byte-Writes small)) written,
      λ rest.
          wide_prefix op (bs ++ rest) hr hb
          ∙ reads (r / 8) (b / 8) (bs ++ rest)
          ∙ ap (on_place make) (read rest),
    )

vex_prefix :
    {w r v pp m b : ℕ} (op : ℕ) (bs : List ℕ)
    → w < 2
    → r < 16
    → v < 16
    → pp < 4
    → m < 4
    → b < 16
    → decode (vex3 w r v 1 pp m b ++ op ∷ bs) ≡ vector_opcode m pp w v op (modrm (r / 8) (b / 8) bs)
unfolding decode
vex_prefix {w} {r} {v} {pp} {m} {b} op bs hw hr hv hp hm hb =
    let x = (1 - r / 8) * 128 + 64 + (1 - b / 8) * 32 + m in
    let y = w * 128 + (15 - v) * 8 + 4 + pp in
    let bit_l : y / 4 % 2 ≡ 1 = omega arith in
    let bit_x : x / 64 % 2 ≡ 1 = omega arith in
    let map_ : x % 32 ≡ m = omega arith in
    let prefix : y % 4 ≡ pp = omega arith in
    let bit_w : y / 128 ≡ w = omega arith in
    let source : 15 - y / 8 % 16 ≡ v = omega arith in
    let bit_r : 1 - x / 128 ≡ r / 8 = omega arith in
    let bit_b : 1 - x / 32 % 2 ≡ b / 8 = omega arith in
    rw (vex3-fields hw hr hv hp hm hb, bit_l, bit_x, map_, prefix, bit_w, source, bit_r, bit_b) refl

after :
    (xs : List ℕ) (op : ℕ) (bs rest : List ℕ)
    → ((xs ++ op ∷ []) ++ bs) ++ rest ≡ xs ++ op ∷ (bs ++ rest)
after [] op bs rest = refl
after (x ∷ xs) op bs rest = ap (λ l. x ∷ l) (after xs op bs rest)

pub vector_form-Encodes :
    (w pp m op : ℕ) (make : ℕ → ℕ → Place → Instr) {d a b : ℕ}
    → w < 2
    → pp < 4
    → m < 4
    → op < 256
    → d < 16
    → a < 16
    → b < 16
    → ((v : ℕ) (o : Decoded (ℕ × Place)) → vector_opcode m pp w v op o ≡ on_place (λ r. make r v) o)
    → Encodes (vector_form (vex3 w d a 1 pp m b) op d b) (make d a (register b))
vector_form-Encodes w pp m op make {d} {a} {b} hw hp hm small hd ha hb reads = (
  _,
  >>-Writes (>>-Writes (write_bytes-Writes _) (write_byte-Writes small)) (modrm_byte-Writes hd hb),
  λ rest.
      ap decode (after (vex3 w d a 1 pp m b) op (encode_modrm 3 d b ∷ []) rest)
      ∙ vex_prefix op (encode_modrm 3 d b ∷ rest) hw hd ha hp hm hb
      ∙ reads a (modrm (d / 8) (b / 8) (encode_modrm 3 d b ∷ rest))
      ∙ ap (on_place (λ r. make r a)) (modrm-registers rest hd hb),
)

-- A vector move between a register and memory.
pub vector_memory-Encodes :
    (op : ℕ) (make : ℕ → Place → Instr) {r b : ℕ} (z : ℤ)
    → r < 16
    → b < 16
    → op < 256
    → InRange 4 z
    → ((o : Decoded (ℕ × Place)) → vector_opcode 1 0 0 0 op o ≡ on_place make o)
    → Encodes
        (write_bytes (vex3 0 r 0 1 0 1 b) >> write_byte op >> memory_operand r b z)
        (make r (memory b z))
vector_memory-Encodes op make {r} {b} z hr hb small h reads =
    let (bs, written, read) = memory_operand-Emitted hr hb z h in
    (
      _,
      >>-Writes (>>-Writes (write_bytes-Writes (vex3 0 r 0 1 0 1 b)) (write_byte-Writes small))
          written,
      λ rest.
          ap decode (after (vex3 0 r 0 1 0 1 b) op bs rest)
          ∙ vex_prefix op (bs ++ rest) (omega arith) hr (omega arith) (omega arith) (omega arith) hb
          ∙ reads (modrm (r / 8) (b / 8) (bs ++ rest))
          ∙ ap (on_place make) (read rest),
    )

pub unprefixed : (p : ℕ) (bs : List ℕ) → 80 ≤ p → p < 196 → decode (p ∷ bs) ≡ opcode 0 0 0 p bs
unfolding decode
unprefixed p bs low high =
    let no_vex : nat_beq p 196 ≡ false = ground arith in
    let no_rex : nat_beq (p / 16) 4 ≡ false = ground arith in rw (no_vex, no_rex) refl

-- The one-byte instructions on a register.
pub short_form-Encodes :
    (op : ℕ) (make : ℕ → Instr) {b : ℕ}
    → b < 16
    → 80 ≤ op
    → op ≤ 88
    → ((y x : ℕ) (bs : List ℕ) → x < 8 → opcode 0 0 y (op + x) bs ≡ some (make (y * 8 + x), bs))
    → Encodes (write_rex (rex false 0 b 0) >> write_byte (op + bit_and b 7)) (make b)
unfolding decode
short_form-Encodes op make {b} hb low high reads =
    let digit : b % 8 < 8 = omega arith in
    let small : op + b % 8 < 256 = omega arith in
    elim (Bool-cases (ltb b 8)) [
      | inl y ↦
          let under : b < 8 = ground arith in
          let same : 0 * 8 + b % 8 ≡ b = omega arith in
          (
            (op + b % 8) ∷ [],
            rw (rex-low under, low-modulus hb) (>>-Writes nothing-Writes (write_byte-Writes small)),
            λ rest.
                unprefixed (op + b % 8) rest (omega arith) (omega arith)
                ∙ reads 0 (b % 8) rest digit
                ∙ ap (λ x. some (make x, rest)) same,
          )
      | inr n ↦
          let over : 8 ≤ b = ground arith in
          let same : 1 * 8 + b % 8 ≡ b = omega arith in
          (
            65 ∷ (op + b % 8) ∷ [],
            rw (rex-high over, low-modulus hb)
                (>>-Writes (write_byte-Writes (omega arith)) (write_byte-Writes small)),
            λ rest. reads 1 (b % 8) rest digit ∙ ap (λ x. some (make x, rest)) same,
          )
    ]
