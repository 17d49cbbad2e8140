-- ===== src/Compiler/X86/Fields.antt =====
-- The bytes of the encoding helpers (uhcr/compiler/x86_64/assembler.py) as sums of their fields, for
-- the sixteen registers.
use uhcr.Prelude.{
  ℕ, zero, suc, ◌+◌, ◌-◌, ◌*◌, ◌/◌, ◌%◌, ◌<◌, ◌≡◌, ◌∙◌, refl, ap, Bool, true, false, List, [], ◌∷◌,
  Option, none, some, leb, nat_beq, nat_beq_iff, ◌&&◌, and_left, and_right, Bool-cases, inl, inr,
  get_or, ap₂, ◌≤◌, arith,
}
use uhcr.Compiler.X86.Assembler.{encode_modrm, encode_sib, rex, vex3}
use Prim.Native.Nat.{bit_and}

-- A test passed by all numbers below a bound.
abbrev all_below : ℕ → (ℕ → Bool) → Bool
all_below zero p = true
all_below (suc n) p = p n && all_below n p

all_below-at : (n k : ℕ) (p : ℕ → Bool) → all_below n p ≡ true → k < n → p k ≡ true
all_below-at zero k p h l = absurd (omega arith)
all_below-at (suc n) k p h l = elim (Bool-cases (nat_beq n k)) [
  | inl same ↦ ap p ((nat_beq_iff k n).0 (ground arith)) ∙ and_left (p n) (all_below n p) h
  | inr apart ↦ all_below-at n k p (and_right (p n) (all_below n p) h) (ground arith)
]

-- The same over pairs of registers.
all_registers-at :
    (p : ℕ → ℕ → Bool)
    → all_below 16 (λ a. all_below 16 (p a)) ≡ true
    → {a b : ℕ} → a < 16
    → b < 16
    → p a b ≡ true
all_registers-at p h {a} {b} l m =
    all_below-at 16 b (p a) (all_below-at 16 a (λ a. all_below 16 (p a)) h l) m

pub low-modulus : {r : ℕ} → r < 16 → bit_and r 7 ≡ r % 8
low-modulus {r} h =
    (nat_beq_iff _ _).0 (all_below-at 16 r (λ r. nat_beq (bit_and r 7) (r % 8)) refl h)

modrm_table : ℕ → ℕ → ℕ → Bool
modrm_table m r b = nat_beq (encode_modrm m r b) (m * 64 + r % 8 * 8 + b % 8)

pub encode_modrm-fields :
    {m r b : ℕ} → m < 4 → r < 16 → b < 16 → encode_modrm m r b ≡ m * 64 + r % 8 * 8 + b % 8
unfolding encode_modrm modrm_table
encode_modrm-fields {m} {r} {b} h l k = (nat_beq_iff _ _).0 (
    all_registers-at (modrm_table m)
      (all_below-at 4 m (λ m. all_below 16 (λ a. all_below 16 (modrm_table m a))) refl h) l k)

pub encode_sib-fields : {b : ℕ} → b < 16 → encode_sib 0 4 b ≡ 32 + b % 8
unfolding encode_sib
encode_sib-fields {b} h =
    (nat_beq_iff _ _).0 (all_below-at 16 b (λ b. nat_beq (encode_sib 0 4 b) (32 + b % 8)) refl h)

abbrev is_byte : ℕ → Option ℕ → Bool
is_byte n none = false
is_byte n (some m) = nat_beq m n

is_byte-some : (n : ℕ) (o : Option ℕ) → is_byte n o ≡ true → o ≡ some n
is_byte-some n none h = absurd cc
is_byte-some n (some m) h = ap some ((nat_beq_iff m n).0 h)

-- REX.W, with the fourth bits of the two registers.
pub rex-wide : {r b : ℕ} → r < 16 → b < 16 → rex true r b 0 ≡ some (suc (71 + 4 * (r / 8) + b / 8))
unfolding rex
rex-wide {r} {b} h l = is_byte-some _ _ (
    all_registers-at (λ r. λ b. is_byte (suc (71 + 4 * (r / 8) + b / 8)) (rex true r b 0)) refl h l)

-- Without REX.W, and for the eight low registers, there is no prefix.
pub rex-low : {b : ℕ} → b < 8 → rex false 0 b 0 ≡ none
unfolding rex
rex-low {b} h = let small : leb 8 b ≡ false = ground arith in rw small refl

pub rex-high : {b : ℕ} → 8 ≤ b → rex false 0 b 0 ≡ some 65
unfolding rex
rex-high {b} h = let large : leb 8 b ≡ true = ground arith in rw large refl

abbrev second : List ℕ → ℕ
second bs = get_or bs 1 0

abbrev third : List ℕ → ℕ
third bs = get_or bs 2 0

pub vex3-fields :
    {w r v pp m b : ℕ}
    → w < 2
    → r < 16
    → v < 16
    → pp < 4
    → m < 4
    → b < 16
    → vex3 w r v 1 pp m b
      ≡ 196
        ∷ ((1 - r / 8) * 128 + 64 + (1 - b / 8) * 32 + m)
        ∷ (w * 128 + (15 - v) * 8 + 4 + pp)
        ∷ []
unfolding vex3
vex3-fields {w} {r} {v} {pp} {m} {b} hw hr hv hp hm hb =
    ap₂ (λ x. λ y. 196 ∷ x ∷ y ∷ [])
      ((nat_beq_iff _ _).0 (
        all_registers-at (second_table m)
          (all_below-at 4 m (λ m. all_below 16 (λ a. all_below 16 (second_table m a))) refl hm) hr
          hb))
      ((nat_beq_iff _ _).0 (
        all_below-at 16 v (third_table w pp)
          (all_below-at 4 pp (λ pp. all_below 16 (third_table w pp))
            (all_below-at 2 w (λ w. all_below 4 (λ pp. all_below 16 (third_table w pp))) refl hw)
            hp)
          hv))
  where
    second_table : ℕ → ℕ → ℕ → Bool
    second_table m r b =
        nat_beq (second (vex3 0 r 0 1 0 m b)) ((1 - r / 8) * 128 + 64 + (1 - b / 8) * 32 + m)

    third_table : ℕ → ℕ → ℕ → Bool
    third_table w pp v = nat_beq (third (vex3 w 0 v 1 pp 1 0)) (w * 128 + (15 - v) * 8 + 4 + pp)
