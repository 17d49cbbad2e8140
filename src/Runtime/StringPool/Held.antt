-- ===== src/Runtime/StringPool/Held.antt =====
-- The pool of uhcr/runtime/string_pool.py together with the references that its callers hold, and what
-- the two agree on.
use uhcr.Prelude.{
  ℕ, suc, ◌≤◌, ◌≡◌, sym, ◌∙◌, Bool, true, false, List, [], ◌∷◌, some, String, pos, get_elem?, ◌==◌,
  ==→≡, string_eq, leb, nat_beq, nat_eq, if◌then◌else◌, Bool-cases, inl, inr,
}
use uhcr.Prelude.Dict.{lookup, insert}
use uhcr.Runtime.StringPool.Defs.{
  StringPool, InternedString, collect, unreferenced, intern, release, garbage_collect,
}

-- How often an address is held.
abbrev pub count : ℕ → List ℕ → ℕ
count a [] = 0
count a (b ∷ bs) = if nat_beq b a then suc (count a bs) else count a bs

abbrev pub drop_one : ℕ → List ℕ → List ℕ
drop_one a [] = []
drop_one a (b ∷ bs) = if nat_beq b a then bs else b ∷ drop_one a bs

-- The pool and the addresses that callers hold, one for each reference.
pub record World : Type 0 where
  pub pool : StringPool
  pub held : List ℕ

pub data PoolCall : Type 0 where
  intern_text : String → PoolCall
  release_held : ℕ → PoolCall
  collect_garbage : PoolCall

-- A caller releases only what it holds.
abbrev pub release_if : Bool → World → ℕ → World
release_if false w a = w
release_if true w a = record { pool = (release w.pool a).0; held = drop_one a w.held }

unfoldable pub perform : PoolCall → World → World
perform (intern_text c) w = record {
  pool = (intern w.pool c).0;
  held = (intern w.pool c).1 ∷ w.held;
}
perform (release_held a) w = release_if (leb 1 (count a w.held)) w a
perform collect_garbage w = record w { pool = (garbage_collect w.pool).0 }

unfoldable pub run : List PoolCall → World → World
run [] w = w
run (c ∷ cs) w = run cs (perform c w)

-- Every entry of the dictionary leads to an object with the entry's text.
abbrev pub Entries : List InternedString → List (String × ℕ) → Type 0
Entries heap [] = Unit
Entries heap ((c, a) ∷ m) =
    ((s : InternedString) × (get_elem? heap a ≡ some s) × (s.content ≡ c)) × Entries heap m

-- The count of an object is the number of references to it, and an object that is held stands in the
-- dictionary under its text.
pub record IsCounted (heap : List InternedString) (pool : List (String × ℕ)) (held : List ℕ)
    : Type 0 where
  pub counted :
      (a : ℕ) (s : InternedString) → get_elem? heap a ≡ some s → s.ref_count ≡ pos (count a held)
  pub entries : Entries heap pool
  pub present :
      (a : ℕ)
      → 1 ≤ count a held
      → (s : InternedString) × (get_elem? heap a ≡ some s) × (lookup s.content pool ≡ some a)

-- Another heap has the same texts.
abbrev pub Keeps : List InternedString → List InternedString → Type 0
Keeps heap heap' =
    (a : ℕ) (s : InternedString)
    → get_elem? heap a ≡ some s
    → (s' : InternedString) × (get_elem? heap' a ≡ some s') × (s'.content ≡ s.content)

pub Entries-keep :
    (heap heap' : List InternedString) (m : List (String × ℕ))
    → Keeps heap heap'
    → Entries heap m
    → Entries heap' m
Entries-keep heap heap' [] k e = tt
Entries-keep heap heap' ((c, a) ∷ m) k ((s, at, same), e) =
    let (s', at', same') = k a s at in ((s', at', same' ∙ same), Entries-keep heap heap' m k e)

pub Entries-insert :
    (heap : List InternedString) (c : String) (a : ℕ) (s : InternedString) (m : List (String × ℕ))
    → get_elem? heap a ≡ some s
    → s.content ≡ c
    → Entries heap m
    → Entries heap (insert c a m)
unfolding insert
Entries-insert heap c a s [] at same e = ((s, at, same), tt)
Entries-insert heap c a s ((d, b) ∷ m) at same ((s2, at2, same2), e) = elim (Bool-cases (d == c)) [
  | inl y ↦ rw y ((s, at, same ∙ sym (==→≡ d c y)), e)
  | inr n ↦ rw n ((s2, at2, same2), Entries-insert heap c a s m at same e)
]

pub Entries-collect :
    (heap : List InternedString) (m : List (String × ℕ))
    → Entries heap m
    → Entries heap (collect heap m)
unfolding collect
Entries-collect heap [] e = tt
Entries-collect heap ((c, a) ∷ m) (h, e) = elim (Bool-cases (unreferenced (get_elem? heap a))) [
  | inl y ↦ rw y (Entries-collect heap m e)
  | inr n ↦ rw n (h, Entries-collect heap m e)
]

pub Entries-lookup :
    (heap : List InternedString) (c : String) (a : ℕ) (m : List (String × ℕ))
    → Entries heap m
    → lookup c m ≡ some a
    → (s : InternedString) × (get_elem? heap a ≡ some s) × (s.content ≡ c)
unfolding lookup
Entries-lookup heap c a [] e h = absurd cc
Entries-lookup heap c a ((d, b) ∷ m) ((s, at, same), e) h = elim (Bool-cases (d == c)) [
  | inl y ↦
      let here : some b ≡ some a = rw y at h in
      let b_is_a : b ≡ a = cc in (s, rw (sym b_is_a) at, same ∙ ==→≡ d c y)
  | inr n ↦ Entries-lookup heap c a m e (rw n at h)
]

-- What a collection leaves is in use.
pub lookup-collect_used :
    (heap : List InternedString) (c : String) (a : ℕ) (m : List (String × ℕ))
    → lookup c (collect heap m) ≡ some a
    → unreferenced (get_elem? heap a) ≡ false
unfolding lookup collect
lookup-collect_used heap c a [] h = absurd cc
lookup-collect_used heap c a ((d, b) ∷ m) h = elim (Bool-cases (unreferenced (get_elem? heap b))) [
  | inl y ↦ lookup-collect_used heap c a m (rw y at h)
  | inr n ↦
      let kept : lookup c ((d, b) ∷ collect heap m) ≡ some a = rw n at h in
      elim (Bool-cases (d == c)) [
        | inl z ↦
            let here : some b ≡ some a = rw z at kept in
            let b_is_a : b ≡ a = cc in rw (sym b_is_a) n
        | inr z ↦ lookup-collect_used heap c a m (rw z at kept)
      ]
]
