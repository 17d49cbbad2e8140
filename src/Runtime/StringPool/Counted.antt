-- ===== src/Runtime/StringPool/Counted.antt =====
-- The references that callers hold, where an object of the pool changes, is new, or is collected
-- (uhcr/runtime/string_pool.py).
use uhcr.Prelude.{
  ℕ, zero, suc, ◌<◌, ◌≤◌, ◌≡◌, ◌≢◌, refl, sym, ap, ◌∙◌, false, List, [], ◌∷◌, ◌++◌, none, some,
  String, ℤ, pos, ◌+ℤ◌, ◌-ℤ◌, arith, length, length-append, get_elem?, set, ◌==◌, ==→≡, string_eq,
  leb, nat_beq, nat_beq_iff, nat_eq, if◌then◌else◌, Bool-cases, inl, inr, get_elem?-set_self,
  get_elem?-set_ne, ==_refl,
}
use uhcr.Prelude.Dict.{lookup, insert, lookup-insert}
use uhcr.Runtime.StringPool.Defs.{
  StringPool, InternedString, collect, extended, unreferenced, is_zero,
}
use uhcr.Runtime.StringPool.Canonical.{lookup-collect, get_elem?-last}
use uhcr.Runtime.StringPool.Held.{
  count, drop_one, IsCounted, Entries-keep, Entries-insert, Entries-collect,
}

abbrev Heap : Type 0
Heap = List InternedString

get_elem?-lt : (xs : Heap) (i : ℕ) {x : InternedString} → get_elem? xs i ≡ some x → i < length xs
get_elem?-lt [] i h = absurd cc
get_elem?-lt (y ∷ xs) zero h = omega arith
get_elem?-lt (y ∷ xs) (suc i) h = let rest = get_elem?-lt xs i h in omega (arith, rest)

get_elem?-before :
    (xs : Heap) (x : InternedString) (i : ℕ)
    → i < length xs
    → get_elem? (xs ++ x ∷ []) i ≡ get_elem? xs i
get_elem?-before [] x i h = absurd (omega (arith, h))
get_elem?-before (y ∷ xs) x zero h = refl
get_elem?-before (y ∷ xs) x (suc i) h = get_elem?-before xs x i (omega (arith, h))

pub count-here : (a : ℕ) (bs : List ℕ) → count a (a ∷ bs) ≡ suc (count a bs)
count-here a bs = rw ((nat_beq_iff a a).1 refl) refl

pub count-other : (a b : ℕ) (bs : List ℕ) → b ≢ a → count a (b ∷ bs) ≡ count a bs
count-other a b bs h = ground (arith, h)

pub count-drop_one :
    (a : ℕ) (bs : List ℕ) → 1 ≤ count a bs → count a bs ≡ suc (count a (drop_one a bs))
count-drop_one a [] h = absurd (omega (arith, h))
count-drop_one a (b ∷ bs) h = elim (Bool-cases (nat_beq b a)) [
  | inl y ↦ rw y refl
  | inr n ↦ rw (n, n) (count-drop_one a bs (rw n at h))
]

pub count-drop_other : (a c : ℕ) (bs : List ℕ) → a ≢ c → count c (drop_one a bs) ≡ count c bs
count-drop_other a c [] h = refl
count-drop_other a c (b ∷ bs) h = elim (Bool-cases (nat_beq b a)) [
  | inl y ↦
      let b_is_a = (nat_beq_iff b a).0 y in
      rw y (sym (count-other c b bs (λ e. h (sym b_is_a ∙ e))))
  | inr n ↦ rw n (ap (λ k. if nat_beq b c then suc k else k) (count-drop_other a c bs h))
]

pub one_more : (n : ℕ) → pos n +ℤ pos 1 ≡ pos (suc n)
unfolding ◌+ℤ◌
one_more n = ground arith

pub one_less : (n : ℕ) → pos (suc n) -ℤ pos 1 ≡ pos n
unfolding ◌-ℤ◌
one_less n = ground arith

apart : (a b : ℕ) → nat_beq a b ≡ false → a ≢ b
apart a b h e = ground (arith, h, e)

-- An object changes its count, and the references to it agree.
pub set-IsCounted :
    (heap : Heap) (m : List (String × ℕ)) (held held' : List ℕ) (a : ℕ) (s s' : InternedString)
    → get_elem? heap a ≡ some s
    → s'.content ≡ s.content
    → s'.ref_count ≡ pos (count a held')
    → ((b : ℕ) → a ≢ b → count b held' ≡ count b held)
    → lookup s.content m ≡ some a
    → IsCounted heap m held
    → IsCounted (set heap a s') m held'
set-IsCounted heap m held held' a s s' at same n others there w =
    let here : get_elem? (set heap a s') a ≡ some s' =
      get_elem?-set_self heap a s' (get_elem?-lt heap a at) in
    record {
      counted = λ b t h. elim (Bool-cases (nat_beq a b)) [
        | inl y ↦
            let a_is_b = (nat_beq_iff a b).0 y in
            let found : some s' ≡ some t = sym here ∙ ap (get_elem? (set heap a s')) a_is_b ∙ h in
            let same_object : s' ≡ t = cc in
            ap (λ x. x.ref_count) (sym same_object) ∙ n ∙ ap (λ k. pos (count k held')) a_is_b
        | inr z ↦
            w.counted b t (sym (get_elem?-set_ne heap s' (apart a b z)) ∙ h)
            ∙ ap pos (sym (others b (apart a b z)))
      ];
      entries =
          Entries-keep heap _ m
            (λ b t h. elim (Bool-cases (nat_beq a b)) [
              | inl y ↦
                  let a_is_b = (nat_beq_iff a b).0 y in
                  let found : some s ≡ some t = sym at ∙ ap (get_elem? heap) a_is_b ∙ h in
                  let same_object : s ≡ t = cc in
                  (
                    s',
                    ap (get_elem? (set heap a s')) (sym a_is_b) ∙ here,
                    same ∙ ap (λ x. x.content) same_object,
                  )
              | inr z ↦ (t, get_elem?-set_ne heap s' (apart a b z) ∙ h, refl)
            ])
            w.entries;
      present = λ b h. elim (Bool-cases (nat_beq a b)) [
        | inl y ↦
            let a_is_b = (nat_beq_iff a b).0 y in
            (
              s',
              ap (get_elem? (set heap a s')) (sym a_is_b) ∙ here,
              ap (λ c. lookup c m) same ∙ there ∙ ap some a_is_b,
            )
        | inr z ↦
            let (t, at_b, in_pool) = w.present b (rw (sym (others b (apart a b z))) h) in
            (t, get_elem?-set_ne heap s' (apart a b z) ∙ at_b, in_pool)
      ];
    }

-- Nothing beyond the heap is held.
none_held :
    (heap : Heap) (m : List (String × ℕ)) (held : List ℕ)
    → IsCounted heap m held
    → count (length heap) held ≡ 0
none_held heap m held w = elim (Bool-cases (leb 1 (count (length heap) held))) [
  | inl y ↦
      let (s, at, there) = w.present (length heap) (ground (arith, y)) in
      let inside = get_elem?-lt heap (length heap) at in absurd (omega (arith, inside))
  | inr z ↦ ground (arith, z)
]

lookup-extended :
    (c d : String) (n b : ℕ) (m : List (String × ℕ))
    → lookup c m ≡ none
    → lookup d m ≡ some b
    → lookup d (insert c n m) ≡ some b
lookup-extended c d n b m missing there = lookup-insert c d n m ∙ elim (Bool-cases (c == d)) [
  | inl y ↦
      let clash : none ≡ some b = sym missing ∙ ap (λ k. lookup k m) (==→≡ c d y) ∙ there in
      absurd cc
  | inr z ↦ rw z there
]

-- A new object at the end of the heap, with one reference.
pub extended-IsCounted :
    (p : StringPool) (c : String) (held : List ℕ)
    → lookup c p.pool ≡ none
    → IsCounted p.heap p.pool held
    → IsCounted (extended p c).heap (extended p c).pool (length p.heap ∷ held)
extended-IsCounted p c held missing w =
    let s : InternedString = record { content = c; string_id = p.next_id; ref_count = pos 1 } in
    let last : get_elem? (p.heap ++ s ∷ []) (length p.heap) ≡ some s = get_elem?-last p.heap s in
    let once : count (length p.heap) (length p.heap ∷ held) ≡ 1 =
      count-here (length p.heap) held ∙ ap suc (none_held p.heap p.pool held w) in
    record {
      counted = λ b t h. elim (Bool-cases (nat_beq (length p.heap) b)) [
        | inl y ↦
            let end_is_b = (nat_beq_iff (length p.heap) b).0 y in
            let found : some s ≡ some t =
              sym last ∙ ap (get_elem? (p.heap ++ s ∷ [])) end_is_b ∙ h in
            let same_object : s ≡ t = cc in
            ap (λ x. x.ref_count) (sym same_object)
            ∙ ap pos (sym once)
            ∙ ap (λ k. pos (count k (length p.heap ∷ held))) end_is_b
        | inr z ↦
            let inside = get_elem?-lt (p.heap ++ s ∷ []) b h in
            let long = length-append p.heap (s ∷ []) in
            let different = apart (length p.heap) b z in
            let before : b < length p.heap = omega (arith, inside, long, different) in
            w.counted b t (sym (get_elem?-before p.heap s b before) ∙ h)
            ∙ ap pos (sym (count-other b (length p.heap) held different))
      ];
      entries = Entries-insert (p.heap ++ s ∷ []) c (length p.heap) s p.pool last refl (
          Entries-keep p.heap _ p.pool
            (λ b t h. (t, get_elem?-before p.heap s b (get_elem?-lt p.heap b h) ∙ h, refl))
            w.entries);
      present = λ b h. elim (Bool-cases (nat_beq (length p.heap) b)) [
        | inl y ↦
            let end_is_b = (nat_beq_iff (length p.heap) b).0 y in
            (
              s,
              ap (get_elem? (p.heap ++ s ∷ [])) (sym end_is_b) ∙ last,
              lookup-insert c c (length p.heap) p.pool ∙ rw (==_refl c) (ap some end_is_b),
            )
        | inr z ↦
            let (t, at, there) =
              w.present b (rw (sym (count-other b (length p.heap) held (apart _ b z))) h) in
            (
              t,
              get_elem?-before p.heap s b (get_elem?-lt p.heap b at) ∙ at,
              lookup-extended c t.content (length p.heap) b p.pool missing there,
            )
      ];
    }

-- A collection removes no entry that is held.
pub collect-IsCounted :
    (heap : Heap) (m : List (String × ℕ)) (held : List ℕ)
    → IsCounted heap m held
    → IsCounted heap (collect heap m) held
collect-IsCounted heap m held w = record {
  counted = w.counted;
  entries = Entries-collect heap m w.entries;
  present = λ b h.
      let (s, at, there) = w.present b h in
      let used : unreferenced (get_elem? heap b) ≡ false =
        rw at (used_of s.ref_count _ (w.counted b s at) h) in
      (s, at, lookup-collect heap s.content b m there used);
}
  where
    used_of : (r : ℤ) (n : ℕ) → r ≡ pos n → 1 ≤ n → is_zero r ≡ false
    used_of r n e h = rw e (positive n h)
      where
        positive : (n : ℕ) → 1 ≤ n → is_zero (pos n) ≡ false
        positive zero h = absurd (omega (arith, h))
        positive (suc n) h = refl
