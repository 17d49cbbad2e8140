-- ===== src/Storage/MemoryPool/Invariant.antt =====
-- The invariant of the pool (uhcr/storage/memory_pool.py) under each step of the callers.
use uhcr.Prelude.{
  ℕ, suc, ◌+◌, ◌*◌, ◌≤◌, ◌<◌, ◌≡◌, ◌≢◌, refl, Bool, true, false, List, [], ◌∷◌, ◌++◌, Option, none,
  some, arith, nat_beq, leb, leb→le, nat_eq, length, get_elem?, set, length-append, length-set,
  get_elem?-set_ne, nat_beq_refl, nat_beq_iff, Bool-cases, inl, inr,
}
use uhcr.Storage.MemoryPool.Defs.{AlignedBuffer, MemoryPool, free_list, is_live, freed, free}
use uhcr.Storage.MemoryPool.Counts.{count, pooled_count, one_if, bytes-insert, pooled_count-insert}
use uhcr.Storage.MemoryPool.World.{World, owners, IsValid, UsableAt, LiveAt, drop_one}
use uhcr.Storage.MemoryPool.Buffers.{
  get_elem?-append_old, get_elem?-append_new, Usable-Kept, AllLive-Kept, Usable-lookup,
  Usable-insert, count-drop_one, AllLive-drop_one,
}
use uhcr.Storage.MemoryPool.Taken.{with_new, without, with_pooled}

nat_beq_ne : (a b : ℕ) → a ≢ b → nat_beq a b ≡ false
nat_beq_ne a b h = ground arith

one_if-le : (b : Bool) → one_if b ≤ 1
one_if-le true = omega arith
one_if-le false = omega arith

-- A buffer counts at most once where it counted not at all.
one_more : (k j n : ℕ) → n ≤ 1 → (k ≡ j → n ≡ 0) → one_if (nat_beq k j) + n ≤ 1
one_more k j n h z = elim (Bool-cases (nat_beq k j)) [
  | inl e ↦ rw e (omega (arith, z ((nat_beq_iff k j).0 e)))
  | inr e ↦ rw e (omega arith)
]

mul_suc : (c n : ℕ) → c * suc n ≡ c * n + c
mul_suc c n = grind arith

pub UsableAt-LiveAt : (c : ℕ) (o : Option AlignedBuffer) → UsableAt c o → LiveAt o
UsableAt-LiveAt c none u = u
UsableAt-LiveAt c (some b) u = u.1

module _ (p : MemoryPool) (held : List ℕ) where
  abbrev w : World
  w = record { pool = p; held = held }

  -- A buffer with an owner is on the heap.
  owned : IsValid w → (j : ℕ) → 0 < owners w j → j < length p.heap
  owned v j h = elim (Bool-cases (leb (length p.heap) j)) [
    | inl out ↦ absurd (omega (arith, v.known j (leb→le _ _ out)))
    | inr within ↦ not_leb _ _ within
  ]
    where
      not_leb : (a b : ℕ) → leb a b ≡ false → b < a
      not_leb a b h = ground arith

  pub new-IsValid :
      (b : AlignedBuffer)
      → is_live b.address ≡ true
      → IsValid w
      → IsValid (record { pool = with_new p b; held = length p.heap ∷ held })
  new-IsValid b l v = record {
    counted = v.counted;
    within = v.within;
    once = λ j.
        let one =
          one_more (length p.heap) j (owners w j) (v.once j) (λ e. v.known j (omega (arith, e))) in
        omega (arith, one);
    known = λ j h.
        let apart : nat_beq (length p.heap) j ≡ false =
          nat_beq_ne _ _
            (past (length p.heap) j (omega (arith, h, length-append p.heap (b ∷ [])))) in
        rw apart (omega (arith, v.known j (omega (arith, h, length-append p.heap (b ∷ [])))));
    usable =
        Usable-Kept p.heap (p.heap ++ b ∷ []) p.free_lists
          (λ j h. get_elem?-append_old p.heap b j (owned v j (omega arith))) v.usable;
    live = (
      rw (get_elem?-append_new p.heap b) l,
      AllLive-Kept p.heap (p.heap ++ b ∷ []) held
          (λ j h. get_elem?-append_old p.heap b j (owned v j (omega arith))) v.live,
    );
  }
    where
      past : (a j : ℕ) → a < j → a ≢ j
      past a j h e = omega (arith, e)

  pub reused-IsValid :
      (c : ℕ) (i : ℕ) (bs : List ℕ)
      → free_list p c ≡ i ∷ bs
      → IsValid w
      → IsValid (record { pool = without p c bs; held = i ∷ held })
  reused-IsValid c i bs f v =
      let place = λ (j : ℕ). (rw f at (pooled_count-insert j c bs p.free_lists)) in
      let total = rw (f, mul_suc) at (bytes-insert c bs p.free_lists) in
      let listed = rw f at (Usable-lookup p.heap c p.free_lists v.usable) in
      record {
        counted = omega (arith, v.counted, total);
        within = omega (arith, v.within);
        once = λ j. omega (arith, v.once j, place j);
        known = λ j h. omega (arith, v.known j h, place j);
        usable = Usable-insert p.heap c bs p.free_lists listed.1 v.usable;
        live = (UsableAt-LiveAt c _ listed.0, v.live);
      }

  pub with_pooled-IsValid :
      (i : ℕ) (b : AlignedBuffer)
      → 0 < count i held
      → get_elem? p.heap i ≡ some b
      → is_live b.address ≡ true
      → p.pooled_bytes + b.size ≤ p.max_pool_bytes
      → IsValid w
      → IsValid (record { pool = with_pooled p i b.size; held = drop_one i held })
  with_pooled-IsValid i b h e l room v =
      let c = b.size in
      let old = free_list p c in
      let total = rw mul_suc at (bytes-insert c (i ∷ old) p.free_lists) in
      let here_ok : UsableAt c (get_elem? p.heap i) = rw e (refl, l) in
      record {
        counted = omega (arith, v.counted, total);
        within = room;
        once = λ j. omega (
          arith,
          v.once j,
          pooled_count-insert j c (i ∷ old) p.free_lists,
          count-drop_one i j held h,
        );
        known = λ j k. omega (
          arith,
          v.known j k,
          pooled_count-insert j c (i ∷ old) p.free_lists,
          count-drop_one i j held h,
        );
        usable =
            Usable-insert p.heap c (i ∷ old) p.free_lists
              (here_ok, Usable-lookup p.heap c p.free_lists v.usable) v.usable;
        live = AllLive-drop_one p.heap i held v.live;
      }

  pub freed-IsValid :
      (i : ℕ) (b : AlignedBuffer)
      → 0 < count i held
      → IsValid w
      → IsValid (record { pool = freed p i b; held = drop_one i held })
  freed-IsValid i b h v = record {
    counted = v.counted;
    within = v.within;
    once = λ j. omega (arith, v.once j, count-drop_one i j held h);
    known = λ j k. omega (
      arith,
      v.known j (omega (arith, k, length-set p.heap i (free b))),
      count-drop_one i j held h,
    );
    usable =
        Usable-Kept p.heap (set p.heap i (free b)) p.free_lists
          (λ j k. get_elem?-set_ne p.heap (free b) (λ e. pooled_apart j k e)) v.usable;
    live =
        AllLive-Kept p.heap (set p.heap i (free b)) (drop_one i held)
          (λ j k. get_elem?-set_ne p.heap (free b) (λ e. held_apart j k e))
          (AllLive-drop_one p.heap i held v.live);
  }
    where
      pooled_apart : (j : ℕ) → 0 < pooled_count j p.free_lists → i ≡ j → ⊥
      pooled_apart j k e =
          let k' : 0 < pooled_count i p.free_lists = rw (← e) at k in omega (arith, v.once i)

      held_apart : (j : ℕ) → 0 < count j (drop_one i held) → i ≡ j → ⊥
      held_apart j k e =
          let k' : 0 < count i (drop_one i held) = rw (← e) at k in
          let one = rw (nat_beq_refl i) at (count-drop_one i i held h) in
          omega (arith, v.once i, one)
