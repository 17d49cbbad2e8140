-- ===== src/Runtime/StringPool/Reached.antt =====
-- The references that callers hold, through any calls of the pool (uhcr/runtime/string_pool.py).
use uhcr.Prelude.{
  ℕ, zero, suc, ◌≤◌, ◌≡◌, refl, sym, ap, ◌∙◌, Bool, true, false, List, [], ◌∷◌, Option, none, some,
  String, ℤ, pos, ◌+ℤ◌, ◌-ℤ◌, arith, length, get_elem?, string_eq, leb, nat_eq, Bool-cases, inl,
  inr,
}
use uhcr.Prelude.Dict.{lookup}
use uhcr.Runtime.StringPool.Defs.{
  StringPool, InternedString, init, extended, is_zero, modify, increment_ref, decrement_ref,
  gc_threshold, intern, intern_at, release, garbage_collect,
}
use uhcr.Runtime.StringPool.Held.{
  World, PoolCall, intern_text, release_held, collect_garbage, release_if, perform, run, count,
  drop_one, IsCounted, Entries-collect, Entries-lookup, lookup-collect_used,
}
use uhcr.Runtime.StringPool.Counted.{
  count-here, count-other, count-drop_one, count-drop_other, one_more, one_less, set-IsCounted,
  extended-IsCounted, collect-IsCounted,
}

intern_at-IsCounted :
    (p : StringPool) (c : String) (o : Option ℕ) (held : List ℕ)
    → lookup c p.pool ≡ o
    → IsCounted p.heap p.pool held
    → IsCounted (intern_at p c o).0.heap (intern_at p c o).0.pool ((intern_at p c o).1 ∷ held)
unfolding increment_ref modify
intern_at-IsCounted p c (some a) held h w =
    let (s, at, same) = Entries-lookup p.heap c a p.pool w.entries h in
    let count_up : s.ref_count +ℤ pos 1 ≡ pos (count a (a ∷ held)) =
      ap (λ r. r +ℤ pos 1) (w.counted a s at)
      ∙ one_more (count a held)
      ∙ ap pos (sym (count-here a held)) in
    rw at (
      set-IsCounted p.heap p.pool held (a ∷ held) a s (increment_ref s) at refl count_up
        (λ b e. count-other b a held e) (ap (λ k. lookup k p.pool) same ∙ h) w)
intern_at-IsCounted p c none held h w =
    let next = extended-IsCounted p c held h w in
    elim (Bool-cases (leb gc_threshold (length (extended p c).pool))) [
      | inl y ↦ rw y (collect-IsCounted _ (extended p c).pool _ next)
      | inr z ↦ rw z next
    ]

abbrev IsCountedWorld : World → Type 0
IsCountedWorld w = IsCounted w.pool.heap w.pool.pool w.held

release_if-IsCounted :
    (b : Bool) (w : World) (a : ℕ)
    → (b ≡ true → 1 ≤ count a w.held)
    → IsCountedWorld w
    → IsCountedWorld (release_if b w a)
unfolding release decrement_ref modify
release_if-IsCounted false w a h c = c
release_if-IsCounted true w a h c =
    let (s, at, there) = c.present a (h refl) in
    let count_down : s.ref_count -ℤ pos 1 ≡ pos (count a (drop_one a w.held)) =
      ap (λ r. r -ℤ pos 1) (c.counted a s at ∙ ap pos (count-drop_one a w.held (h refl)))
      ∙ one_less (count a (drop_one a w.held)) in
    rw at (
      set-IsCounted w.pool.heap w.pool.pool w.held (drop_one a w.held) a s (decrement_ref s) at refl
        count_down (λ b e. count-drop_other a b w.held e) there c)

perform-IsCounted : (c : PoolCall) (w : World) → IsCountedWorld w → IsCountedWorld (perform c w)
unfolding perform intern garbage_collect
perform-IsCounted (intern_text c) w h =
    intern_at-IsCounted w.pool c (lookup c w.pool.pool) w.held refl h
perform-IsCounted (release_held a) w h =
    release_if-IsCounted (leb 1 (count a w.held)) w a (λ e. ground (arith, e)) h
perform-IsCounted collect_garbage w h = collect-IsCounted w.pool.heap w.pool.pool w.held h

run-IsCounted : (cs : List PoolCall) (w : World) → IsCountedWorld w → IsCountedWorld (run cs w)
unfolding run
run-IsCounted [] w h = h
run-IsCounted (c ∷ cs) w h = run-IsCounted cs (perform c w) (perform-IsCounted c w h)

abbrev pub start : World
start = record { pool = init; held = [] }

start-IsCounted : IsCountedWorld start
unfolding init
start-IsCounted = record {
  counted = λ a s h. absurd cc;
  entries = tt;
  present = λ a h. absurd (omega (arith, h));
}

used_count : (r : ℤ) (n : ℕ) → r ≡ pos n → is_zero r ≡ false → 1 ≤ n
used_count r zero e h = absurd (apart_zero (rw e at h))
  where
    apart_zero : true ≡ false → ⊥
    apart_zero h = cc
used_count r (suc n) e h = omega arith

-- After any calls of `intern`, of `release` by callers that hold a reference, and of `garbage_collect`,
-- from an empty pool on: an object that is held is on the heap, its count is the number of references
-- that are held, and to intern its text gives that object again. A text that a collection then leaves
-- in the dictionary is held.
pub run-held :
    (cs : List PoolCall)
    → ((a : ℕ)
        → 1 ≤ count a (run cs start).held
        → (s : InternedString) × (get_elem? (run cs start).pool.heap a ≡ some s)
          × (s.ref_count ≡ pos (count a (run cs start).held))
          × ((intern (run cs start).pool s.content).1 ≡ a))
      × ((c : String) (a : ℕ)
          → lookup c (garbage_collect (run cs start).pool).0.pool ≡ some a
          → 1 ≤ count a (run cs start).held)
unfolding intern garbage_collect
run-held cs =
    let w = run cs start in
    let h = run-IsCounted cs start start-IsCounted in
    (
      (λ a held. let (s, at, there) = h.present a held in (s, at, h.counted a s at, rw there refl)),
      (λ c a left.
          let all = Entries-collect w.pool.heap w.pool.pool h.entries in
          let (s, at, same) = Entries-lookup w.pool.heap c a _ all left in
          let used = lookup-collect_used w.pool.heap c a w.pool.pool left in
          used_count s.ref_count _ (h.counted a s at) (rw at at used)),
    )
