-- ===== src/Runtime/StringPool/Canonical.antt =====
-- One object stands for one text as long as it is in use.
use uhcr.Prelude.{
  ℕ, ◌≡◌, refl, false, List, [], ◌∷◌, ◌++◌, Option, none, some, String, leb, length, get_elem?,
  ◌==◌, string_eq, Bool-cases, inl, inr, ==_refl,
}
use uhcr.Prelude.Dict.{lookup, lookup-insert}
use uhcr.Runtime.StringPool.Defs.{
  StringPool, InternedString, collect, unreferenced, extended, gc_threshold, intern, intern_at,
}

-- A collection keeps the entry of an object in use.
pub lookup-collect :
    (heap : List InternedString) (c : String) (a : ℕ) (m : List (String × ℕ))
    → lookup c m ≡ some a
    → unreferenced (get_elem? heap a) ≡ false
    → lookup c (collect heap m) ≡ some a
unfolding collect lookup
lookup-collect heap c a [] h u = h
lookup-collect heap c a ((d, b) ∷ m) h u = elim (Bool-cases (d == c)) [
  | inl e ↦
      let here : some b ≡ some a = rw e at h in
      let same : b ≡ a = cc in
      let used : unreferenced (get_elem? heap b) ≡ false = rw same u in rw (used, e) here
  | inr e ↦
      let rest = lookup-collect heap c a m (rw e at h) u in
      elim (Bool-cases (unreferenced (get_elem? heap b))) [
        | inl z ↦ rw z rest
        | inr z ↦ rw (z, e) rest
      ]
]

pub get_elem?-last :
    (xs : List InternedString) (x : InternedString) → get_elem? (xs ++ x ∷ []) (length xs) ≡ some x
get_elem?-last [] x = refl
get_elem?-last (y ∷ xs) x = get_elem?-last xs x

-- The text is in the pool after `intern`, under the address that `intern` returned.
lookup-intern_at :
    (p : StringPool) (c : String) (o : Option ℕ)
    → lookup c p.pool ≡ o
    → lookup c (intern_at p c o).0.pool ≡ some (intern_at p c o).1
lookup-intern_at p c (some a) h = h
lookup-intern_at p c none h =
    let q = extended p c in
    let there : lookup c q.pool ≡ some (length p.heap) = rw (lookup-insert, ==_refl c) refl in
    elim (Bool-cases (leb gc_threshold (length q.pool))) [
      | inl e ↦
          rw e
            (lookup-collect q.heap c (length p.heap) q.pool there (rw (get_elem?-last p.heap) refl))
      | inr e ↦ rw e there
    ]

intern_at-found :
    (q : StringPool) (c : String) (o : Option ℕ) (a : ℕ)
    → o ≡ some a
    → (intern_at q c o).1 ≡ a
      × ((intern_at q c o).0.pool ≡ q.pool)
      × ((intern_at q c o).0.next_id ≡ q.next_id)
intern_at-found q c none a h = absurd (none≢some h)
  where
    none≢some : {b : ℕ} → none ≡ some b → ⊥
    none≢some e = cc
intern_at-found q c (some b) a h = (cc, refl, refl)

-- Interning a text twice gives the same object, also where the first call collects the pool; and a
-- second call leaves the dictionary and the next identifier as they were.
pub intern-intern :
    (p : StringPool) (c : String)
    → (intern (intern p c).0 c).1 ≡ (intern p c).1
      × ((intern (intern p c).0 c).0.pool ≡ (intern p c).0.pool)
      × ((intern (intern p c).0 c).0.next_id ≡ (intern p c).0.next_id)
unfolding intern
intern-intern p c =
    intern_at-found (intern p c).0 c _ _ (lookup-intern_at p c (lookup c p.pool) refl)
