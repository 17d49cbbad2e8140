-- ===== src/Storage/MemoryPool/Reset.antt =====
-- What `release_all` (uhcr/storage/memory_pool.py) frees.
use uhcr.Prelude.{
  ℕ, ◌+◌, ◌<◌, ◌≡◌, ◌≢◌, refl, sym, ◌∙◌, List, [], ◌∷◌, ◌++◌, Option, none, some, arith, nat_eq,
  length, get_elem?, length-set, get_elem?-set_ne, nat_beq_refl,
}
use uhcr.Storage.MemoryPool.Defs.{
  AlignedBuffer, MemoryPool, release_all, free, free_each, all_pooled, emptied, free_object,
}
use uhcr.Storage.MemoryPool.Counts.{count, pooled_count, bytes}
use uhcr.Storage.MemoryPool.World.{IsValid, Usable}
use uhcr.Storage.MemoryPool.Buffers.{AllLive-Kept}

count-append : (j : ℕ) (xs ys : List ℕ) → count j (xs ++ ys) ≡ count j xs + count j ys
count-append j [] ys = omega arith
count-append j (x ∷ xs) ys = omega (arith, count-append j xs ys)

count-all_pooled : (j : ℕ) (m : List (ℕ × List ℕ)) → count j (all_pooled m) ≡ pooled_count j m
count-all_pooled j [] = refl
count-all_pooled j ((c, bs) ∷ m) =
    omega (arith, count-append j bs (all_pooled m), count-all_pooled j m)

length-free_object :
    (heap : List AlignedBuffer) (i : ℕ) (o : Option AlignedBuffer)
    → length (free_object heap i o) ≡ length heap
length-free_object heap i none = refl
length-free_object heap i (some b) = length-set heap i (free b)

length-free_each :
    (heap : List AlignedBuffer) (is : List ℕ) → length (free_each heap is) ≡ length heap
unfolding free_each
length-free_each heap [] = refl
length-free_each heap (i ∷ is) =
    length-free_each (free_object heap i (get_elem? heap i)) is
    ∙ length-free_object heap i (get_elem? heap i)

free_object-ne :
    (heap : List AlignedBuffer) (i j : ℕ) (o : Option AlignedBuffer)
    → i ≢ j
    → get_elem? (free_object heap i o) j ≡ get_elem? heap j
free_object-ne heap i j none h = refl
free_object-ne heap i j (some b) h = get_elem?-set_ne heap (free b) h

-- A buffer that is not freed stays as it is.
free_each-others :
    (heap : List AlignedBuffer) (is : List ℕ) (j : ℕ)
    → count j is ≡ 0
    → get_elem? (free_each heap is) j ≡ get_elem? heap j
unfolding free_each
free_each-others heap [] j h = refl
free_each-others heap (i ∷ is) j h =
    free_each-others (free_object heap i (get_elem? heap i)) is j (omega arith)
    ∙ free_object-ne heap i j (get_elem? heap i) (λ e. apart e)
  where
    apart : i ≡ j → ⊥
    apart e = let one = rw (e, nat_beq_refl j) at h in omega (arith, one)

emptied-bytes : (m : List (ℕ × List ℕ)) → bytes (emptied m) ≡ 0
emptied-bytes [] = refl
emptied-bytes ((c, bs) ∷ m) = omega (arith, emptied-bytes m)

emptied-count : (j : ℕ) (m : List (ℕ × List ℕ)) → pooled_count j (emptied m) ≡ 0
emptied-count j [] = refl
emptied-count j ((c, bs) ∷ m) = omega (arith, emptied-count j m)

emptied-Usable : (heap : List AlignedBuffer) (m : List (ℕ × List ℕ)) → Usable heap (emptied m)
emptied-Usable heap [] = tt
emptied-Usable heap ((c, bs) ∷ m) = (tt, emptied-Usable heap m)

module _ (p : MemoryPool) (held : List ℕ) (v : IsValid (record { pool = p; held = held })) where
  -- A buffer that a caller holds is not touched.
  pub release_all-held :
      (j : ℕ) → 0 < count j held → get_elem? (release_all p).heap j ≡ get_elem? p.heap j
  unfolding release_all
  release_all-held j h =
      free_each-others p.heap (all_pooled p.free_lists) j
        (omega (arith, v.once j, count-all_pooled j p.free_lists))

  pub release_all-IsValid : IsValid (record { pool = release_all p; held = held })
  unfolding release_all
  release_all-IsValid = record {
    counted = sym (emptied-bytes p.free_lists);
    within = omega arith;
    once = λ j. omega (arith, v.once j, emptied-count j p.free_lists);
    known = λ j h. omega (
      arith,
      v.known j (omega (arith, h, length-free_each p.heap (all_pooled p.free_lists))),
      emptied-count j p.free_lists,
    );
    usable = emptied-Usable (free_each p.heap (all_pooled p.free_lists)) p.free_lists;
    live =
        AllLive-Kept p.heap (free_each p.heap (all_pooled p.free_lists)) held
          (λ j h. release_all-held j h) v.live;
  }
