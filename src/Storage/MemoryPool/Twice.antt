-- ===== src/Storage/MemoryPool/Twice.antt =====
-- A buffer that is released twice (uhcr/storage/memory_pool.py).
use uhcr.Prelude.{
  ℕ, suc, ◌+◌, ◌≤◌, ◌≡◌, refl, true, false, List, ◌∷◌, Option, none, some, arith, nat_eq,
  nat_beq_refl, ltb, get_elem?, ok,
}
use uhcr.Prelude.Dict.{lookup-insert}
use uhcr.Storage.MemoryPool.Defs.{
  AlignedBuffer, MemoryPool, Answer, allocate, release, is_live, find_size_class, free_list,
  release_live,
}
use uhcr.Storage.MemoryPool.Taken.{with_pooled, without}

not_full : (most n : ℕ) → n ≤ most → ltb most n ≡ false
not_full most n h = ground arith

live_some :
    (p : MemoryPool) (i : ℕ) (b : AlignedBuffer) (o : Option ℕ)
    → is_live o ≡ true
    → find_size_class b.size ≡ some b.size
    → p.pooled_bytes + b.size ≤ p.max_pool_bytes
    → release_live p i b o ≡ with_pooled p i b.size
live_some p i b none l c h = absurd cc
live_some p i b (some place) l c h =
    rw (c, nat_beq_refl b.size, not_full p.max_pool_bytes (p.pooled_bytes + b.size) h) refl

release-with_pooled :
    (p : MemoryPool) (i : ℕ) (b : AlignedBuffer)
    → get_elem? p.heap i ≡ some b
    → is_live b.address ≡ true
    → find_size_class b.size ≡ some b.size
    → p.pooled_bytes + b.size ≤ p.max_pool_bytes
    → release p i ≡ with_pooled p i b.size
unfolding release
release-with_pooled p i b e l c h = rw e (live_some p i b b.address l c h)

allocate-first :
    (p : MemoryPool) (n c i : ℕ) (bs : List ℕ) (a : Answer)
    → find_size_class (suc n) ≡ some c
    → free_list p c ≡ i ∷ bs
    → allocate p (suc n) a ≡ (without p c bs, ok i)
unfolding allocate
allocate-first p n c i bs a e f = rw (e, f) refl

-- A live buffer whose size is a size class, released twice where the pool has room for both, is
-- handed out twice: the next two allocations of its class give the same buffer.
pub release-release-allocate :
    (p : MemoryPool) (i : ℕ) (b : AlignedBuffer) (n : ℕ) (a a' : Answer)
    → get_elem? p.heap i ≡ some b
    → is_live b.address ≡ true
    → find_size_class b.size ≡ some b.size
    → find_size_class (suc n) ≡ some b.size
    → p.pooled_bytes + b.size + b.size ≤ p.max_pool_bytes
    → ((allocate (release (release p i) i) (suc n) a).1 ≡ ok i)
      × ((allocate (allocate (release (release p i) i) (suc n) a).0 (suc n) a').1 ≡ ok i)
release-release-allocate p i b n a a' e l c cn h =
    let one = release-with_pooled p i b e l c (omega arith) in
    let q = with_pooled p i b.size in
    let two = release-with_pooled q i b e l c h in
    let r = with_pooled q i b.size in
    let olds = free_list p b.size in
    let first_list : free_list q b.size ≡ i ∷ olds = rw (lookup-insert, nat_beq_refl b.size) refl in
    let second_list : free_list r b.size ≡ i ∷ i ∷ olds =
      rw (lookup-insert, nat_beq_refl b.size, first_list) refl in
    let first = allocate-first r n b.size i (i ∷ olds) a cn second_list in
    let third_list : free_list (without r b.size (i ∷ olds)) b.size ≡ i ∷ olds =
      rw (lookup-insert, nat_beq_refl b.size) refl in
    let second = allocate-first (without r b.size (i ∷ olds)) n b.size i olds a' cn third_list in
    (rw (one, two, first) refl, rw (one, two, first, second) refl)
