-- ===== src/Storage/MemoryPool/Taken.antt =====
-- What a successful and a failed allocation do, and what a release does
-- (uhcr/storage/memory_pool.py).
use uhcr.Prelude.{
  ℕ, zero, suc, ◌+◌, ◌-◌, ◌≤◌, ◌≡◌, refl, sym, ap, true, List, [], ◌∷◌, ◌++◌, Option, none, some,
  arith, nat_beq, nat_eq, length, get_elem?, ok, err, ltb, nat_beq_iff, Bool-cases, inl, inr,
}
use uhcr.Prelude.Dict.{insert}
use uhcr.Storage.MemoryPool.Defs.{
  AlignedBuffer, MemoryPool, PoolError, Answer, allocate, new_buffer, fresh, from_list, from_class,
  find_size_class, free_list, is_live, release, release_live, put_back, exact, freed,
}
use uhcr.Storage.MemoryPool.Classes.{find_size_class-least}

abbrev pub with_new : MemoryPool → AlignedBuffer → MemoryPool
with_new p b = record p { pool_misses = p.pool_misses + 1; heap = p.heap ++ b ∷ [] }

abbrev pub without : MemoryPool → ℕ → List ℕ → MemoryPool
without p c bs = record p {
  free_lists = insert c bs p.free_lists;
  pooled_bytes = p.pooled_bytes - c;
  pool_hits = p.pool_hits + 1;
}

pub data Taken (p : MemoryPool) (n : ℕ) (p' : MemoryPool) (i : ℕ) : Type 0 where
  new :
      (b : AlignedBuffer)
      → n ≤ b.size
      → is_live b.address ≡ true
      → i ≡ length p.heap
      → p' ≡ with_new p b
      → Taken p n p' i
  reused :
      (c : ℕ) (bs : List ℕ) → n ≤ c → free_list p c ≡ i ∷ bs → p' ≡ without p c bs → Taken p n p' i

module _ (p : MemoryPool) (n : ℕ) (p' : MemoryPool) (i : ℕ) where
  fresh-Taken : (size : ℕ) (a : Answer) → n ≤ size → fresh p size a ≡ (p', ok i) → Taken p n p' i
  unfolding new_buffer
  fresh-Taken size none h e = absurd cc
  fresh-Taken size (some (place, bytes)) h e =
      let b : AlignedBuffer = record {
        size = size;
        alignment = p.alignment;
        address = some place;
        contents = bytes;
      } in
      new b h refl (cc) (cc)

  from_list-Taken :
      (c : ℕ) (bs : List ℕ) (a : Answer)
      → n ≤ c
      → free_list p c ≡ bs
      → from_list p c bs a ≡ (p', ok i)
      → Taken p n p' i
  from_list-Taken c [] a h f e = fresh-Taken c a h e
  from_list-Taken c (b ∷ bs) a h f e = reused c bs h (cc) (cc)

  from_class-Taken :
      (o : Option ℕ) (a : Answer)
      → find_size_class n ≡ o
      → from_class p n o a ≡ (p', ok i)
      → Taken p n p' i
  from_class-Taken none a h e = fresh-Taken n a (omega arith) e
  from_class-Taken (some c) a h e =
      from_list-Taken c (free_list p c) a (find_size_class-least n c h).1 refl e

pub allocate-Taken :
    (p : MemoryPool) (n : ℕ) (a : Answer) (p' : MemoryPool) (i : ℕ)
    → allocate p n a ≡ (p', ok i)
    → Taken p n p' i
unfolding allocate
allocate-Taken p zero a p' i e = absurd cc
allocate-Taken p (suc n) a p' i e =
    from_class-Taken p (suc n) p' i (find_size_class (suc n)) a refl e

-- A refused allocation changes a counter at most.
abbrev pub SameBut : MemoryPool → MemoryPool → Type 0
SameBut p p' = (k : ℕ) × (p' ≡ record p { pool_misses = k })

module _ (p : MemoryPool) (p' : MemoryPool) (x : PoolError) where
  fresh-SameBut : (size : ℕ) (a : Answer) → fresh p size a ≡ (p', err x) → SameBut p p'
  unfolding new_buffer
  fresh-SameBut size none e = (p.pool_misses + 1, (cc))
  fresh-SameBut size (some (place, bytes)) e = absurd cc

  from_list-SameBut :
      (c : ℕ) (bs : List ℕ) (a : Answer) → from_list p c bs a ≡ (p', err x) → SameBut p p'
  from_list-SameBut c [] a e = fresh-SameBut c a e
  from_list-SameBut c (b ∷ bs) a e = absurd cc

  from_class-SameBut :
      (n : ℕ) (o : Option ℕ) (a : Answer) → from_class p n o a ≡ (p', err x) → SameBut p p'
  from_class-SameBut n none a e = fresh-SameBut n a e
  from_class-SameBut n (some c) a e = from_list-SameBut c (free_list p c) a e

pub allocate-SameBut :
    (p : MemoryPool) (n : ℕ) (a : Answer) (p' : MemoryPool) (x : PoolError)
    → allocate p n a ≡ (p', err x)
    → SameBut p p'
unfolding allocate
allocate-SameBut p zero a p' x e = (p.pool_misses, (cc))
allocate-SameBut p (suc n) a p' x e =
    from_class-SameBut p p' x (suc n) (find_size_class (suc n)) a e

-- The pool with a buffer on the free list of its class.
abbrev pub with_pooled : MemoryPool → ℕ → ℕ → MemoryPool
with_pooled p i c = record p {
  free_lists = insert c (i ∷ free_list p c) p.free_lists;
  pooled_bytes = p.pooled_bytes + c;
}

pub data Released (p : MemoryPool) (i : ℕ) (p' : MemoryPool) : Type 0 where
  kept :
      (b : AlignedBuffer)
      → get_elem? p.heap i ≡ some b
      → is_live b.address ≡ true
      → p.pooled_bytes + b.size ≤ p.max_pool_bytes
      → p' ≡ with_pooled p i b.size
      → Released p i p'
  gone : (b : AlignedBuffer) → get_elem? p.heap i ≡ some b → p' ≡ freed p i b → Released p i p'

module _ (p : MemoryPool) (i : ℕ) (b : AlignedBuffer) (here : get_elem? p.heap i ≡ some b) where
  put_back-Released :
      (o : Option ℕ) → is_live b.address ≡ true → Released p i (put_back p i b (exact b.size o))
  put_back-Released none l = gone b here refl
  put_back-Released (some c) l = elim (Bool-cases (nat_beq b.size c)) [
    | inl e ↦
        let same : b.size ≡ c = (nat_beq_iff b.size c).0 e in
        elim (Bool-cases (ltb p.max_pool_bytes (p.pooled_bytes + c))) [
          | inl full ↦ rw (e, full) (gone b here refl)
          | inr room ↦ rw (e, room) (kept b here l (ground arith) (ap (with_pooled p i) (sym same)))
        ]
    | inr e ↦ rw e (gone b here refl)
  ]

  release_live-Released :
      (o : Option ℕ) → b.address ≡ o → is_live o ≡ true → Released p i (release_live p i b o)
  release_live-Released none e l = absurd cc
  release_live-Released (some place) e l = put_back-Released (find_size_class b.size) (rw e refl)

  pub release-Released : is_live b.address ≡ true → Released p i (release p i)
  unfolding release
  release-Released l = rw here (release_live-Released b.address refl l)
