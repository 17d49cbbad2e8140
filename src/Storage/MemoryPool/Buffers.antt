-- ===== src/Storage/MemoryPool/Buffers.antt =====
-- The buffers of the free lists and of the callers (uhcr/storage/memory_pool.py), through the changes
-- of the heap.
use uhcr.Prelude.{
  ℕ, zero, suc, ◌+◌, ◌≤◌, ◌<◌, ◌≡◌, refl, sym, subst, false, List, [], ◌∷◌, ◌++◌, none, some, arith,
  nat_beq, nat_eq, nat_beq_iff, length, get_elem?, Bool-cases, inl, inr, nat_beq_refl,
}
use uhcr.Prelude.Dict.{lookup, insert}
use uhcr.Storage.MemoryPool.Defs.{AlignedBuffer, list_of}
use uhcr.Storage.MemoryPool.Counts.{count, pooled_count, one_if}
use uhcr.Storage.MemoryPool.World.{UsableAt, AllUsable, Usable, LiveAt, AllLive, drop_one}

pub get_elem?-append_old :
    (xs : List AlignedBuffer) (b : AlignedBuffer) (i : ℕ)
    → i < length xs
    → get_elem? (xs ++ b ∷ []) i ≡ get_elem? xs i
get_elem?-append_old [] b i h = absurd (omega arith)
get_elem?-append_old (x ∷ xs) b zero h = refl
get_elem?-append_old (x ∷ xs) b (suc i) h = get_elem?-append_old xs b i (omega arith)

pub get_elem?-append_new :
    (xs : List AlignedBuffer) (b : AlignedBuffer) → get_elem? (xs ++ b ∷ []) (length xs) ≡ some b
get_elem?-append_new [] b = refl
get_elem?-append_new (x ∷ xs) b = get_elem?-append_new xs b

get_elem?-none : (xs : List AlignedBuffer) (i : ℕ) → length xs ≤ i → get_elem? xs i ≡ none
get_elem?-none [] i h = refl
get_elem?-none (x ∷ xs) zero h = absurd (omega arith)
get_elem?-none (x ∷ xs) (suc i) h = get_elem?-none xs i (omega arith)

-- Two heaps that agree wherever the first one is defined and a list has a buffer.
abbrev pub Kept : List AlignedBuffer → List AlignedBuffer → (ℕ → ℕ) → Type 0
Kept old new n = (j : ℕ) → 0 < n j → get_elem? new j ≡ get_elem? old j

AllUsable-Kept :
    (old new : List AlignedBuffer) (c : ℕ) (is : List ℕ)
    → Kept old new (λ j. count j is)
    → AllUsable old c is
    → AllUsable new c is
AllUsable-Kept old new c [] k u = tt
AllUsable-Kept old new c (i ∷ is) k (u, us) = (
  subst (UsableAt c) (sym (k i (rw (nat_beq_refl i) (omega arith)))) u,
  AllUsable-Kept old new c is (λ j h. k j (omega arith)) us,
)

pub Usable-Kept :
    (old new : List AlignedBuffer) (m : List (ℕ × List ℕ))
    → Kept old new (λ j. pooled_count j m)
    → Usable old m
    → Usable new m
Usable-Kept old new [] k u = tt
Usable-Kept old new ((c, bs) ∷ m) k (u, us) = (
  AllUsable-Kept old new c bs (λ j h. k j (omega arith)) u,
  Usable-Kept old new m (λ j h. k j (omega arith)) us,
)

pub AllLive-Kept :
    (old new : List AlignedBuffer) (is : List ℕ)
    → Kept old new (λ j. count j is)
    → AllLive old is
    → AllLive new is
AllLive-Kept old new [] k u = tt
AllLive-Kept old new (i ∷ is) k (u, us) = (
  subst LiveAt (sym (k i (rw (nat_beq_refl i) (omega arith)))) u,
  AllLive-Kept old new is (λ j h. k j (omega arith)) us,
)

-- The free list of a class holds buffers of that class.
pub Usable-lookup :
    (heap : List AlignedBuffer) (c : ℕ) (m : List (ℕ × List ℕ))
    → Usable heap m
    → AllUsable heap c (list_of (lookup c m))
unfolding lookup
Usable-lookup heap c [] u = tt
Usable-lookup heap c ((d, bs) ∷ m) (u, us) = elim (Bool-cases (nat_beq d c)) [
  | inl e ↦ rw e (subst (λ z. AllUsable heap z bs) ((nat_beq_iff d c).0 e) u)
  | inr e ↦ rw e (Usable-lookup heap c m us)
]

pub Usable-insert :
    (heap : List AlignedBuffer) (c : ℕ) (bs : List ℕ) (m : List (ℕ × List ℕ))
    → AllUsable heap c bs
    → Usable heap m
    → Usable heap (insert c bs m)
unfolding insert
Usable-insert heap c bs [] v u = (v, tt)
Usable-insert heap c bs ((d, old) ∷ m) v (u, us) = elim (Bool-cases (nat_beq d c)) [
  | inl e ↦ rw e (subst (λ z. AllUsable heap z bs) (sym ((nat_beq_iff d c).0 e)) v, us)
  | inr e ↦ rw e (u, Usable-insert heap c bs m v us)
]

count_later : (k i : ℕ) (ks : List ℕ) → nat_beq k i ≡ false → 0 < count i (k ∷ ks) → 0 < count i ks
count_later k i ks e h = let rest : 0 < 0 + count i ks = rw e at h in omega arith

-- What a caller gives back leaves its hands once.
pub count-drop_one :
    (i j : ℕ) (is : List ℕ)
    → 0 < count i is
    → count j (drop_one i is) + one_if (nat_beq i j) ≡ count j is
count-drop_one i j [] h = absurd (omega arith)
count-drop_one i j (k ∷ ks) h = elim (Bool-cases (nat_beq k i)) [
  | inl e ↦ let same : k ≡ i = (nat_beq_iff k i).0 e in rw (e, same) (omega arith)
  | inr e ↦ let rest = count_later k i ks e h in rw e (omega (arith, count-drop_one i j ks rest))
]

pub AllLive-drop_one :
    (heap : List AlignedBuffer) (i : ℕ) (is : List ℕ)
    → AllLive heap is
    → AllLive heap (drop_one i is)
AllLive-drop_one heap i [] u = tt
AllLive-drop_one heap i (k ∷ ks) (u, us) = elim (Bool-cases (nat_beq k i)) [
  | inl e ↦ rw e us
  | inr e ↦ rw e (u, AllLive-drop_one heap i ks us)
]

pub AllLive-at :
    (heap : List AlignedBuffer) (i : ℕ) (is : List ℕ)
    → 0 < count i is
    → AllLive heap is
    → LiveAt (get_elem? heap i)
AllLive-at heap i [] h u = absurd (omega arith)
AllLive-at heap i (k ∷ ks) h (u, us) = elim (Bool-cases (nat_beq k i)) [
  | inl e ↦ subst (λ z. LiveAt (get_elem? heap z)) ((nat_beq_iff k i).0 e) u
  | inr e ↦ AllLive-at heap i ks (count_later k i ks e h) us
]
