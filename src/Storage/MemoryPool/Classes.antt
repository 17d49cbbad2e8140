-- ===== src/Storage/MemoryPool/Classes.antt =====
-- The choice of a size class, and the copies into and out of a buffer (uhcr/storage/memory_pool.py).
use uhcr.Prelude.{
  ℕ, zero, suc, ◌≤◌, ◌<◌, ◌≡◌, refl, true, false, List, [], ◌∷◌, ◌++◌, none, some, arith, contains,
  nat_eq, length, take, drop, length-append, length-drop, ok, err, leb,
}
use uhcr.Storage.MemoryPool.Defs.{
  AlignedBuffer, size_classes, find_size_class, copy_from, copy_to, is_live, value_error,
}

-- The class found is one of the size classes, fits the size, and is the least one that fits.
pub find_size_class-least :
    (n c : ℕ)
    → find_size_class n ≡ some c
    → (contains c size_classes ≡ true)
      × (n ≤ c)
      × ((d : ℕ) → contains d size_classes ≡ true → n ≤ d → c ≤ d)
unfolding find_size_class
find_size_class-least n c h = (ground arith, ground arith, λ d m l. ground (arith, m))

pub find_size_class-none : (n : ℕ) → find_size_class n ≡ none → 16777216 < n
unfolding find_size_class
find_size_class-none n h = ground arith

drop-append : (xs ys : List ℕ) → drop (length xs) (xs ++ ys) ≡ ys
drop-append [] ys = refl
drop-append (x ∷ xs) ys = drop-append xs ys

take-all : (n : ℕ) (xs : List ℕ) → length xs ≤ n → take n xs ≡ xs
take-all zero [] h = refl
take-all zero (x ∷ xs) h = absurd (omega arith)
take-all (suc n) [] h = refl
take-all (suc n) (x ∷ xs) h = rw (take-all n xs (omega arith)) refl

-- A copy into a buffer that has its memory raises exactly when the bytes do not fit; else a copy
-- out gives the bytes, and after them what the buffer held there.
pub copy_to-copy_from :
    (b : AlignedBuffer) (src : List ℕ)
    → is_live b.address ≡ true
    → length b.contents ≡ b.size
    → (b.size < length src → copy_from b src ≡ err value_error)
      × (length src ≤ b.size
          → (b' : AlignedBuffer) × (copy_from b src ≡ ok b')
            × (copy_to b' ≡ ok (src ++ drop (length src) b.contents)))
unfolding copy_from copy_to
copy_to-copy_from b src l full = (
  (λ h. rw (l, leb_false _ _ h) refl),
  λ h.
      let size : length (src ++ drop (length src) b.contents) ≤ b.size = omega (
        arith,
        length-append src (drop (length src) b.contents),
        length-drop (length src) b.contents,
      ) in
      (
        record b { contents = src ++ drop (length src) b.contents },
        rw (l, le→leb _ _ h) refl,
        rw (l, take-all b.size (src ++ drop (length src) b.contents) size) refl,
      ),
)
  where
    leb_false : (m n : ℕ) → n < m → leb m n ≡ false
    leb_false m n h = ground arith

    le→leb : (m n : ℕ) → m ≤ n → leb m n ≡ true
    le→leb m n h = ground arith
