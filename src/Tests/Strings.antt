-- ===== src/Tests/Strings.antt =====
-- A pool with a few texts.
use uhcr.Prelude.{
  ℕ, ◌≤◌, ◌≡◌, refl, some, List, [], ◌∷◌, String, pos, get_elem?, ◌-ℤ◌, ◌+ℤ◌, string_eq,
}
use uhcr.Prelude.Dict.{lookup, insert}
use uhcr.Runtime.StringPool.Defs.{
  StringPool, InternedString, init, intern, release, garbage_collect, collect, modify,
  decrement_ref, increment_ref,
}
use uhcr.Runtime.StringPool.Canonical.{intern-intern}
use uhcr.Runtime.StringPool.Held.{
  PoolCall, intern_text, release_held, collect_garbage, run, perform, count,
}
use uhcr.Runtime.StringPool.Reached.{start, run-held}

abbrev pool : StringPool
pool = (release (intern (intern init "add").0 "mul").0 0).0

intern-intern_example :
    (intern (intern pool "add").0 "add").1 ≡ (intern pool "add").1
    × ((intern (intern pool "add").0 "add").0.pool ≡ (intern pool "add").0.pool)
    × ((intern (intern pool "add").0 "add").0.next_id ≡ (intern pool "add").0.next_id)
intern-intern_example = intern-intern pool "add"

abbrev calls : List PoolCall
calls =
    intern_text "add"
    ∷ intern_text "mul"
    ∷ intern_text "mul"
    ∷ release_held 0
    ∷ release_held 1
    ∷ collect_garbage
    ∷ []

run-held_example :
    ((a : ℕ)
      → 1 ≤ count a (run calls start).held
      → (s : InternedString) × (get_elem? (run calls start).pool.heap a ≡ some s)
        × (s.ref_count ≡ pos (count a (run calls start).held))
        × ((intern (run calls start).pool s.content).1 ≡ a))
    × ((c : String) (a : ℕ)
        → lookup c (garbage_collect (run calls start).pool).0.pool ≡ some a
        → 1 ≤ count a (run calls start).held)
run-held_example = run-held calls

-- Of the two texts, the one that is held is left.
pool_after : ((run calls start).held ≡ 1 ∷ []) × ((run calls start).pool.pool ≡ ("mul", 1) ∷ [])
unfolding run perform intern init release modify decrement_ref increment_ref insert lookup collect
    garbage_collect ◌-ℤ◌ ◌+ℤ◌
pool_after = (refl, refl)
