-- ===== src/Compiler/X86/Operands.antt =====
-- The operands that the assembler (uhcr/compiler/x86_64/assembler.py) writes, and how the decoder reads
-- them: two registers, or a register and a base with an offset.
use uhcr.Prelude.{
  reassociate, ℕ, ◌+◌, ◌*◌, ◌/◌, ◌%◌, ◌<◌, ◌≡◌, refl, sym, ap, subst, Bool, true, false, not, ◌&&◌,
  List, [], ◌∷◌, ◌++◌, some, ℤ, pos, negsuc, leb→le, nat_beq, nat_beq_iff, if◌then◌else◌, arith,
  Bool-cases, inl, inr, and_left, and_right,
}
use uhcr.Compiler.X86.Assembler.{Asm, write_byte, encode_modrm, encode_sib}
use uhcr.Compiler.X86.Methods.{memory_operand, write_sib, is_short, is_zero, low_byte}
use uhcr.Compiler.X86.Fields.{encode_modrm-fields, encode_sib-fields, low-modulus}
use uhcr.Compiler.X86.Decoder.{Decoded, register, memory, base_of, modrm}
use uhcr.Compiler.X86.Writes.{
  Writes, >>-Writes, nothing-Writes, write_byte-Writes, InRange, signed_bytes, write_signed-Writes,
  signed-signed_bytes,
}

pub modrm-parts :
    {k r b : ℕ}
    → k < 4
    → r < 16
    → b < 16
    → (encode_modrm k r b / 64 ≡ k)
      × (r / 8 * 8 + encode_modrm k r b / 8 % 8 ≡ r)
      × (encode_modrm k r b % 8 ≡ b % 8)
      × (encode_modrm k r b < 256)
modrm-parts {k} {r} {b} hk hr hb =
    let e = encode_modrm-fields hk hr hb in
    (omega (arith, e), omega (arith, e), omega (arith, e), omega (arith, e))

pub modrm-registers :
    {r b : ℕ} (rest : List ℕ)
    → r < 16
    → b < 16
    → modrm (r / 8) (b / 8) (encode_modrm 3 r b ∷ rest) ≡ some ((r, register b), rest)
modrm-registers {r} {b} rest hr hb =
    let (mode, reg, low, _) = modrm-parts {k = 3} (omega arith) hr hb in
    let base : b / 8 * 8 + b % 8 ≡ b = omega arith in rw (mode, reg, low, base) refl

-- The SIB byte of a base, where it needs one.
abbrev sib_of : ℕ → List ℕ
sib_of b = if nat_beq (b % 8) 4 then encode_sib 0 4 b ∷ [] else []

base_of-sib_of :
    (b : ℕ) (rest : List ℕ) → b < 16 → base_of (b / 8) (b % 8) (sib_of b ++ rest) ≡ some (b, rest)
base_of-sib_of b rest h =
    let whole : b / 8 * 8 + b % 8 ≡ b = omega arith in
    elim (Bool-cases (nat_beq (b % 8) 4)) [
      | inl y ↦
          let e = encode_sib-fields h in
          let index : encode_sib 0 4 b / 8 ≡ 4 = omega (arith, e) in
          let low : encode_sib 0 4 b % 8 ≡ b % 8 = omega (arith, e) in
          rw (y, index, low, whole) refl
      | inr n ↦ rw (n, whole) refl
    ]

write_sib-Writes : (b : ℕ) → b < 16 → Writes (write_sib (nat_beq (b % 8) 4) b) (sib_of b)
write_sib-Writes b h =
    let e = encode_sib-fields h in
    elim (Bool-cases (nat_beq (b % 8) 4)) [
      | inl y ↦ rw y (write_byte-Writes (omega (arith, e)))
      | inr n ↦ rw n nothing-Writes
    ]

low_byte-signed_bytes :
    (z : ℤ)
    → is_short z ≡ true
    → (low_byte z ∷ [] ≡ signed_bytes 1 z) × (low_byte z < 256) × InRange 1 z
low_byte-signed_bytes (pos n) h = let l = leb→le n 127 h in (refl, omega arith, omega arith)
low_byte-signed_bytes (negsuc n) h =
    let l = leb→le n 127 h in (ap (λ x. x ∷ []) (omega arith), omega arith, omega arith)

-- A method that writes what a reader reads.
abbrev pub Emitted : {A : Type 0} → Asm → (List ℕ → Decoded A) → A → Type 0
Emitted m read a =
    (bs : List ℕ) × Writes m bs × ((rest : List ℕ) → read (bs ++ rest) ≡ some (a, rest))

module _ {reg b : ℕ} (hr : reg < 16) (hb : b < 16) where
  short_read :
      (z : ℤ) (rest : List ℕ)
      → InRange 1 z
      → modrm (reg / 8) (b / 8) (encode_modrm 1 reg b ∷ (sib_of b ++ signed_bytes 1 z) ++ rest)
        ≡ some ((reg, memory b z), rest)
  short_read z rest h =
      let (mode, field, low, _) = modrm-parts {k = 1} (omega arith) hr hb in
      rw
        (
          mode,
          field,
          low,
          sym (reassociate (sib_of b) (signed_bytes 1 z) rest),
          base_of-sib_of b (signed_bytes 1 z ++ rest) hb,
          signed-signed_bytes 1 z rest h,
        )
        refl

  long_read :
      (z : ℤ) (rest : List ℕ)
      → InRange 4 z
      → modrm (reg / 8) (b / 8) (encode_modrm 2 reg b ∷ (sib_of b ++ signed_bytes 4 z) ++ rest)
        ≡ some ((reg, memory b z), rest)
  long_read z rest h =
      let (mode, field, low, _) = modrm-parts {k = 2} (omega arith) hr hb in
      rw
        (
          mode,
          field,
          low,
          sym (reassociate (sib_of b) (signed_bytes 4 z) rest),
          base_of-sib_of b (signed_bytes 4 z ++ rest) hb,
          signed-signed_bytes 4 z rest h,
        )
        refl

  bare_read :
      (rest : List ℕ)
      → nat_beq (b % 8) 4 ≡ false
      → nat_beq (b % 8) 5 ≡ false
      → modrm (reg / 8) (b / 8) (encode_modrm 0 reg b ∷ rest) ≡ some ((reg, memory b (pos 0)), rest)
  bare_read rest n4 n5 =
      let (mode, field, low, _) = modrm-parts {k = 0} (omega arith) hr hb in
      let whole : b / 8 * 8 + b % 8 ≡ b = omega arith in rw (mode, field, low, n5, n4, whole) refl

  modrm_byte :
      (k : ℕ) → k < 4 → Writes (write_byte (encode_modrm k reg b)) (encode_modrm k reg b ∷ [])
  modrm_byte k h = let (_, _, _, small) = modrm-parts h hr hb in write_byte-Writes small

  zero_of : (z : ℤ) → is_zero z ≡ true → z ≡ pos 0
  zero_of (pos n) h = ap pos ((nat_beq_iff n 0).0 h)
  zero_of (negsuc n) h = absurd cc

  -- The test for the form without a displacement.
  abbrev is_bare : ℤ → Bool
  is_bare z = is_zero z && (not (nat_beq (b % 8) 4) && not (nat_beq (b % 8) 5))

  bare_written :
      (z : ℤ) → is_bare z ≡ true → Writes (memory_operand reg b z) (encode_modrm 0 reg b ∷ [])
  unfolding memory_operand
  bare_written z bare = rw (low-modulus hb, bare) (modrm_byte 0 (omega arith))

  short_written :
      (z : ℤ)
      → is_bare z ≡ false
      → is_short z ≡ true
      → Writes (memory_operand reg b z) ((encode_modrm 1 reg b ∷ sib_of b) ++ signed_bytes 1 z)
  unfolding memory_operand
  short_written z other short =
      let (same, small, _) = low_byte-signed_bytes z short in
      rw (low-modulus hb, other, short, sym same)
        (>>-Writes (>>-Writes (modrm_byte 1 (omega arith)) (write_sib-Writes b hb))
          (write_byte-Writes small))

  long_written :
      (z : ℤ)
      → is_bare z ≡ false
      → is_short z ≡ false
      → InRange 4 z
      → Writes (memory_operand reg b z) ((encode_modrm 2 reg b ∷ sib_of b) ++ signed_bytes 4 z)
  unfolding memory_operand
  long_written z other long h =
      rw (low-modulus hb, other, long)
        (>>-Writes (>>-Writes (modrm_byte 2 (omega arith)) (write_sib-Writes b hb))
          (write_signed-Writes 4 z h))

  bare-Emitted :
      (z : ℤ)
      → is_bare z ≡ true
      → Emitted (memory_operand reg b z) (modrm (reg / 8) (b / 8)) (reg, memory b z)
  bare-Emitted z bare =
      let no_base =
        and_right (is_zero z) (not (nat_beq (b % 8) 4) && not (nat_beq (b % 8) 5)) bare in
      let n4 = and_left (not (nat_beq (b % 8) 4)) (not (nat_beq (b % 8) 5)) no_base in
      let n5 = and_right (not (nat_beq (b % 8) 4)) (not (nat_beq (b % 8) 5)) no_base in
      let zero_z =
        zero_of z
          (and_left (is_zero z) (not (nat_beq (b % 8) 4) && not (nat_beq (b % 8) 5)) bare) in
      (
        encode_modrm 0 reg b ∷ [],
        bare_written z bare,
        λ rest.
            subst
              (λ y.
                modrm (reg / 8) (b / 8) (encode_modrm 0 reg b ∷ rest)
                ≡ some ((reg, memory b y), rest))
              (sym zero_z) (bare_read rest (ground (arith, n4)) (ground (arith, n5))),
      )

  -- The operand `[base + offset]`, in each of its three forms.
  pub memory_operand-Emitted :
      (z : ℤ)
      → InRange 4 z
      → Emitted (memory_operand reg b z) (modrm (reg / 8) (b / 8)) (reg, memory b z)
  memory_operand-Emitted z h = elim (Bool-cases (is_bare z)) [
    | inl bare ↦ bare-Emitted z bare
    | inr other ↦ elim (Bool-cases (is_short z)) [
      | inl short ↦
          let (_, _, fits) = low_byte-signed_bytes z short in
          (_, short_written z other short, λ rest. short_read z rest fits)
      | inr long ↦ (_, long_written z other long h, λ rest. long_read z rest h)
    ]
  ]
