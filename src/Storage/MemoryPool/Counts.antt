-- ===== src/Storage/MemoryPool/Counts.antt =====
-- How often a buffer stands in the free lists, and how many bytes they hold
-- (uhcr/storage/memory_pool.py).
use uhcr.Prelude.{
  ℕ, ◌+◌, ◌*◌, ◌≡◌, Bool, true, false, List, [], ◌∷◌, arith, nat_beq, nat_eq, nat_beq_iff, length,
  Bool-cases, inl, inr,
}
use uhcr.Prelude.Dict.{lookup, insert}
use uhcr.Storage.MemoryPool.Defs.{list_of}

abbrev pub one_if : Bool → ℕ
one_if true = 1
one_if false = 0

abbrev pub count : ℕ → List ℕ → ℕ
count j [] = 0
count j (i ∷ is) = one_if (nat_beq i j) + count j is

abbrev pub pooled_count : ℕ → List (ℕ × List ℕ) → ℕ
pooled_count j [] = 0
pooled_count j ((c, bs) ∷ m) = count j bs + pooled_count j m

abbrev pub bytes : List (ℕ × List ℕ) → ℕ
bytes [] = 0
bytes ((c, bs) ∷ m) = c * length bs + bytes m

pub bytes-insert :
    (c : ℕ) (bs : List ℕ) (m : List (ℕ × List ℕ))
    → bytes (insert c bs m) + c * length (list_of (lookup c m)) ≡ bytes m + c * length bs
unfolding insert lookup
bytes-insert c bs [] = omega arith
bytes-insert c bs ((d, old) ∷ m) = elim (Bool-cases (nat_beq d c)) [
  | inl e ↦ let same : d ≡ c = (nat_beq_iff d c).0 e in rw (e, same) (omega arith)
  | inr e ↦ rw e (omega (arith, bytes-insert c bs m))
]

pub pooled_count-insert :
    (j c : ℕ) (bs : List ℕ) (m : List (ℕ × List ℕ))
    → pooled_count j (insert c bs m) + count j (list_of (lookup c m))
      ≡ pooled_count j m + count j bs
unfolding insert lookup
pooled_count-insert j c bs [] = omega arith
pooled_count-insert j c bs ((d, old) ∷ m) = elim (Bool-cases (nat_beq d c)) [
  | inl e ↦ rw e (omega arith)
  | inr e ↦ rw e (omega (arith, pooled_count-insert j c bs m))
]
