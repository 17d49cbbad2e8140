-- ===== src/Storage/MemoryPool/Reach.antt =====
-- The states that the callers of the pool (uhcr/storage/memory_pool.py) reach.
use uhcr.Prelude.{
  ℕ, ◌≤◌, ◌<◌, ◌≡◌, refl, sym, subst, true, List, ◌∷◌, Option, none, some, arith, get_elem?, ok,
  nat_beq_refl,
}
use uhcr.Storage.MemoryPool.Defs.{
  AlignedBuffer, MemoryPool, Answer, allocate, release, init, is_live,
}
use uhcr.Storage.MemoryPool.Counts.{count, pooled_count-insert}
use uhcr.Storage.MemoryPool.World.{
  World, Step, takes, fails, gives, resets, Reach, here, next, start, IsValid, LiveAt, UsableAt,
  drop_one,
}
use uhcr.Storage.MemoryPool.Buffers.{AllLive-at, get_elem?-append_new, Usable-lookup}
use uhcr.Storage.MemoryPool.Taken.{
  Taken, new, reused, with_new, allocate-Taken, SameBut, allocate-SameBut, Released, kept, gone,
  release-Released,
}
use uhcr.Storage.MemoryPool.Invariant.{
  new-IsValid, reused-IsValid, with_pooled-IsValid, freed-IsValid,
}
use uhcr.Storage.MemoryPool.Reset.{release_all-IsValid}

init-IsValid : (most alignment : ℕ) → IsValid (start most alignment)
unfolding init
init-IsValid most alignment = record {
  counted = refl;
  within = omega arith;
  once = λ j. omega arith;
  known = λ j h. refl;
  usable = (tt, (tt, (tt, (tt, (tt, (tt, (tt, tt)))))));
  live = tt;
}

module _ (p : MemoryPool) (held : List ℕ) (v : IsValid (record { pool = p; held = held })) where
  Taken-IsValid :
      (n i : ℕ) (p' : MemoryPool) → Taken p n p' i → IsValid (record { pool = p'; held = i ∷ held })
  Taken-IsValid n i p' (new b fits l at_end e) =
      subst (λ z. IsValid (record { pool = z; held = i ∷ held })) (sym e)
        (subst (λ z. IsValid (record { pool = with_new p b; held = z ∷ held })) (sym at_end)
          (new-IsValid p held b l v))
  Taken-IsValid n i p' (reused c bs fits f e) =
      subst (λ z. IsValid (record { pool = z; held = i ∷ held })) (sym e)
        (reused-IsValid p held c i bs f v)

  SameBut-IsValid : (p' : MemoryPool) → SameBut p p' → IsValid (record { pool = p'; held = held })
  SameBut-IsValid p' (k, e) =
      subst (λ z. IsValid (record { pool = z; held = held })) (sym e)
        (record {
          counted = v.counted;
          within = v.within;
          once = v.once;
          known = v.known;
          usable = v.usable;
          live = v.live;
        })

  Released-IsValid :
      (i : ℕ) (p' : MemoryPool)
      → 0 < count i held
      → Released p i p'
      → IsValid (record { pool = p'; held = drop_one i held })
  Released-IsValid i p' h (kept b e l room eq) =
      subst (λ z. IsValid (record { pool = z; held = drop_one i held })) (sym eq)
        (with_pooled-IsValid p held i b h e l room v)
  Released-IsValid i p' h (gone b e eq) =
      subst (λ z. IsValid (record { pool = z; held = drop_one i held })) (sym eq)
        (freed-IsValid p held i b h v)

  released :
      (i : ℕ) (o : Option AlignedBuffer)
      → get_elem? p.heap i ≡ o
      → LiveAt o
      → Released p i (release p i)
  released i none e l = absurd l
  released i (some b) e l = release-Released p i b e l

Step-IsValid : (w u : World) → Step w u → IsValid w → IsValid u
Step-IsValid w u (takes n a p i done e) v =
    subst IsValid (sym e) (Taken-IsValid w.pool w.held v n i p (allocate-Taken w.pool n a p i done))
Step-IsValid w u (fails n a p x done e) v =
    subst IsValid (sym e) (SameBut-IsValid w.pool w.held v p (allocate-SameBut w.pool n a p x done))
Step-IsValid w u (gives i h e) v = subst IsValid (sym e) (
    Released-IsValid w.pool w.held v i (release w.pool i) h (
      released w.pool w.held v i (get_elem? w.pool.heap i) refl
        (AllLive-at w.pool.heap i w.held h v.live)))
Step-IsValid w u (resets e) v = subst IsValid (sym e) (release_all-IsValid w.pool w.held v)

-- Whatever buffers callers take, give back (each only what it holds) or have freed by
-- `release_all`: the pooled bytes are the sum over the free lists and at most the maximum, a buffer
-- stands at one place at most (in one hand, or once in one free list), and each pooled buffer has
-- its memory and the size of its class.
pub Reach-IsValid : (most alignment : ℕ) (w : World) → Reach (start most alignment) w → IsValid w
Reach-IsValid most alignment w r = walk r
  where
    walk : {u : World} → Reach (start most alignment) u → IsValid u
    walk here = init-IsValid most alignment
    walk (next r s) = Step-IsValid _ _ s (walk r)

UsableAt-buffer :
    (c : ℕ) (o : Option AlignedBuffer)
    → UsableAt c o
    → (b : AlignedBuffer) × (o ≡ some b) × (b.size ≡ c) × (is_live b.address ≡ true)
UsableAt-buffer c none u = absurd u
UsableAt-buffer c (some b) (s, l) = (b, refl, s, l)

Taken-fits :
    (w : World) (n i : ℕ) (p : MemoryPool)
    → IsValid w
    → Taken w.pool n p i
    → (b : AlignedBuffer) × (get_elem? p.heap i ≡ some b)
      × (n ≤ b.size)
      × (is_live b.address ≡ true)
      × (count i w.held ≡ 0)
Taken-fits w n i p v (new b fits l at_end e) = (
  b,
  rw (e, at_end) (get_elem?-append_new w.pool.heap b),
  fits,
  l,
  omega (arith, v.known i (omega (arith, at_end))),
)
Taken-fits w n i p v (reused c bs fits f e) =
    let listed = rw f at (Usable-lookup w.pool.heap c w.pool.free_lists v.usable) in
    let (b, there, size, l) = UsableAt-buffer c (get_elem? w.pool.heap i) listed.0 in
    let place = rw (f, nat_beq_refl i) at (pooled_count-insert i c bs w.pool.free_lists) in
    (b, rw e there, omega (arith, size), l, omega (arith, v.once i, place))

-- In every state that the callers reach, a successful allocation gives a buffer of at least the
-- size asked for, with its memory, that nobody holds.
pub allocate-fits :
    (most alignment : ℕ) (w : World) (n : ℕ) (a : Answer) (p : MemoryPool) (i : ℕ)
    → Reach (start most alignment) w
    → allocate w.pool n a ≡ (p, ok i)
    → (b : AlignedBuffer) × (get_elem? p.heap i ≡ some b)
      × (n ≤ b.size)
      × (is_live b.address ≡ true)
      × (count i w.held ≡ 0)
allocate-fits most alignment w n a p i r done =
    Taken-fits w n i p (Reach-IsValid most alignment w r) (allocate-Taken w.pool n a p i done)
