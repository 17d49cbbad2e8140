-- ===== src/Network/Coordinator/Choice.antt =====
-- The least-loaded choice, and what the hint of a job can name.
use uhcr.Prelude.{
  ℕ, ◌≤◌, ◌≡◌, ◌≢◌, refl, sym, subst, Bool, true, false, List, [], ◌∷◌, none, some, arith, tests,
  ltb, nat_beq, nat_eq, contains, Bool-cases, inl, inr, Option-cases,
}
use uhcr.Network.Coordinator.Defs.{
  Registered, assign_least_loaded, parts, onto_first, is_separator, hint, after_prefix, arch_prefix,
}
use uhcr.Network.Coordinator.Assign.{All}

abbrev load : Registered → ℕ
load x = (x.1).active_jobs

least_loaded-bound :
    (best : Registered) (xs : List Registered)
    → (load (assign_least_loaded best xs) ≤ load best)
      × All (λ y. load (assign_least_loaded best xs) ≤ load y) xs
unfolding assign_least_loaded
least_loaded-bound best [] = (omega arith, tt)
least_loaded-bound best (x ∷ xs) = elim (Bool-cases (ltb (load x) (load best))) [
  | inl h ↦
      let (a, b) = least_loaded-bound x xs in
      subst Bound (sym (first h)) ((omega (tests, a, h), (a, b)))
  | inr h ↦
      let (a, b) = least_loaded-bound best xs in
      let le : load best ≤ load x = not_ltb _ _ h in
      subst Bound (sym (second h)) ((a, (omega (arith, a, le), b)))
]
  where
    Bound : Registered → Type 0
    Bound r = (load r ≤ load best) × All (λ y. load r ≤ load y) (x ∷ xs)

    first :
        ltb (load x) (load best) ≡ true
        → assign_least_loaded best (x ∷ xs) ≡ assign_least_loaded x xs
    first h = rw h refl

    second :
        ltb (load x) (load best) ≡ false
        → assign_least_loaded best (x ∷ xs) ≡ assign_least_loaded best xs
    second h = rw h refl

    not_ltb : (a b : ℕ) → ltb a b ≡ false → b ≤ a
    not_ltb a b h = ground arith

-- The least-loaded choice from a pool has at most the active jobs of every worker in the pool.
pub assign_least_loaded-le :
    (x : Registered) (xs : List Registered)
    → All (λ y. load (assign_least_loaded x xs) ≤ load y) (x ∷ xs)
assign_least_loaded-le x xs = least_loaded-bound x xs

abbrev pub Plain : List ℕ → Type 0
Plain cs = All (λ c. is_separator c ≡ false) cs

onto_first-Plain :
    (c : ℕ) (ps : List (List ℕ))
    → is_separator c ≡ false
    → All Plain ps
    → All Plain (onto_first c ps)
onto_first-Plain c [] h ps = ((h, tt), tt)
onto_first-Plain c (p ∷ ps) h (q, qs) = ((h, q), qs)

parts-Plain : (cs : List ℕ) → All Plain (parts cs)
unfolding parts
parts-Plain [] = (tt, tt)
parts-Plain (c ∷ cs) = elim (Bool-cases (is_separator c)) [
  | inl h ↦ rw h (tt, parts-Plain cs)
  | inr h ↦ rw h (onto_first-Plain c (parts cs) h (parts-Plain cs))
]

after_prefix-Plain :
    (ps cs : List ℕ) {rest : List ℕ} → Plain cs → after_prefix ps cs ≡ some rest → Plain rest
after_prefix-Plain [] cs h e = let same : cs ≡ _ = cc e in subst Plain same h
after_prefix-Plain (p ∷ ps) [] h e = absurd cc
after_prefix-Plain (p ∷ ps) (c ∷ cs) (_, h) e = elim (Bool-cases (nat_beq p c)) [
  | inl b ↦ after_prefix-Plain ps cs h (rw b at e)
  | inr b ↦ absurd (none≢some (rw b at e))
]
  where
    none≢some : {r : List ℕ} → none ≡ some r → ⊥
    none≢some q = cc

hint-Plain :
    (prefix : List ℕ) (ps : List (List ℕ)) (found : List ℕ)
    → All Plain ps
    → Plain found
    → Plain (hint prefix ps found)
unfolding hint
hint-Plain prefix [] found h f = f
hint-Plain prefix (p ∷ ps) found (h, hs) f = elim (Option-cases (after_prefix prefix p)) [
  | inl e ↦ rw e (hint-Plain prefix ps found hs f)
  | inr (r, e) ↦ rw e (hint-Plain prefix ps r hs (after_prefix-Plain prefix p h e))
]

contains-Plain : (cs : List ℕ) → Plain cs → contains b'_' cs ≡ false
contains-Plain [] h = refl
contains-Plain (c ∷ cs) (h, hs) = ground (arith, h, contains-Plain cs hs)

-- The architecture hint of a job never equals an architecture whose name has an underscore, such as
-- x86_64, whatever the job's identifier: the identifier is split at the underscores first.
pub arch_hint-≢ :
    (job_id arch : List ℕ) → contains b'_' arch ≡ true → hint arch_prefix (parts job_id) [] ≢ arch
arch_hint-≢ job_id arch h e =
    let plain = hint-Plain arch_prefix (parts job_id) [] (parts-Plain job_id) tt in
    true≢false (subst (λ a. contains b'_' a ≡ false) e (contains-Plain _ plain)) h
  where
    true≢false : {b : Bool} → b ≡ false → b ≡ true → ⊥
    true≢false p q = cc
