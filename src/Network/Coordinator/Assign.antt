-- ===== src/Network/Coordinator/Assign.antt =====
-- Where an assignment goes, and what a hint of a job can name.
use uhcr.Prelude.{
  ℕ, zero, suc, ◌≡◌, refl, sym, subst, ap, Bool, true, List, [], ◌∷◌, Option, none, some, String,
  ◌==◌, ltb, get_or, Bool-cases, inl, inr, string_eq, contains, ==→≡, ==_refl,
}
use uhcr.Prelude.Dict.{lookup, insert}
use uhcr.Network.Coordinator.Defs.{
  WorkerInfo, CoordinatorNode, Strategy, round_robin, least_loaded, hardware_affinity, unknown,
  Registered, filter_by, assign_least_loaded, assign_round_robin, assign_hardware_affinity, prefer,
  or_else, choose, busier, assign_from, assign_job, parts, hint, arch_prefix, simd_prefix, codes_eq,
}

abbrev pub All {ℓ κ} : {A : Type ℓ} → (A → Type κ) → List A → Type κ
All P [] = Unit
All P (x ∷ xs) = P x × All P xs

-- The keys are distinct, and each is its worker's identifier.
abbrev pub IsRegistry : List Registered → Type 0
IsRegistry [] = Unit
IsRegistry ((k, w) ∷ m) = (w.id ≡ k) × (lookup k m ≡ none) × IsRegistry m

Found : List Registered → Registered → Type 0
Found m x = (lookup x.0 m ≡ some x.1) × ((x.1).id ≡ x.0)

Found-later :
    (k : String) (w : WorkerInfo) (m : List Registered) (x : Registered)
    → lookup k m ≡ none
    → Found m x
    → Found ((k, w) ∷ m) x
unfolding Found lookup
Found-later k w m x h (f, i) = elim (Bool-cases (k == x.0)) [
  | inl b ↦ absurd (none≢some (subst (λ j. lookup j m ≡ none) (==→≡ k x.0 b) h) f)
  | inr b ↦ (rw b f, i)
]
  where
    none≢some : {o : Option WorkerInfo} {v : WorkerInfo} → o ≡ none → o ≡ some v → ⊥
    none≢some p q = cc

All-later :
    (k : String) (w : WorkerInfo) (m xs : List Registered)
    → lookup k m ≡ none
    → All (Found m) xs
    → All (Found ((k, w) ∷ m)) xs
All-later k w m [] h fs = tt
All-later k w m (x ∷ xs) h (f, fs) = (Found-later k w m x h f, All-later k w m xs h fs)

IsRegistry-Found : (m : List Registered) → IsRegistry m → All (Found m) m
unfolding Found lookup
IsRegistry-Found [] r = tt
IsRegistry-Found ((k, w) ∷ m) (i, h, r) =
    ((rw (==_refl k) refl, i), All-later k w m m h (IsRegistry-Found m r))

least_loaded-All :
    (P : Registered → Type 0) (best : Registered) (xs : List Registered)
    → P best
    → All P xs
    → P (assign_least_loaded best xs)
unfolding assign_least_loaded
least_loaded-All P best [] p ps = p
least_loaded-All P best (x ∷ xs) p (q, ps) =
    elim (Bool-cases (ltb (x.1).active_jobs (best.1).active_jobs)) [
      | inl h ↦ rw h (least_loaded-All P x xs q ps)
      | inr h ↦ rw h (least_loaded-All P best xs p ps)
    ]

get_or-All :
    (P : Registered → Type 0) (xs : List Registered) (i : ℕ) (d : Registered)
    → P d
    → All P xs
    → P (get_or xs i d)
get_or-All P [] i d p ps = p
get_or-All P (x ∷ xs) zero d p (q, ps) = q
get_or-All P (x ∷ xs) (suc i) d p (q, ps) = get_or-All P xs i d p ps

filter_by-All :
    (P : Registered → Type 0) (p : WorkerInfo → Bool) (xs : List Registered)
    → All P xs
    → All (λ x. P x × (p x.1 ≡ true)) (filter_by p xs)
unfolding filter_by
filter_by-All P p [] ps = tt
filter_by-All P p (x ∷ xs) (q, ps) = elim (Bool-cases (p x.1)) [
  | inl h ↦ rw h ((q, h), filter_by-All P p xs ps)
  | inr h ↦ rw h (filter_by-All P p xs ps)
]

All-fst :
    (P : Registered → Type 0) (p : WorkerInfo → Bool) (xs : List Registered)
    → All (λ x. P x × (p x.1 ≡ true)) xs
    → All P xs
All-fst P p [] ps = tt
All-fst P p (x ∷ xs) ((q, _), ps) = (q, All-fst P p xs ps)

or_else-All :
    (P : Registered → Type 0) (ys : List Registered) (x : Registered) (xs : List Registered)
    → All P ys
    → P x × All P xs
    → P (or_else ys x xs).0 × All P (or_else ys x xs).1
or_else-All P [] x xs h ps = ps
or_else-All P (y ∷ ys) x xs h ps = h

prefer-All :
    (P : Registered → Type 0) (p : WorkerInfo → Bool) (c : List ℕ) (x : Registered)
    (xs : List Registered)
    → P x × All P xs
    → P (prefer p c x xs).0 × All P (prefer p c x xs).1
unfolding prefer
prefer-All P p [] x xs ps = ps
prefer-All P p (c ∷ cs) x xs ps =
    or_else-All P (filter_by p (x ∷ xs)) x xs
      (All-fst P p (filter_by p (x ∷ xs)) (filter_by-All P p (x ∷ xs) ps)) ps

affinity-All :
    (P : Registered → Type 0) (job_id : List ℕ) (x : Registered) (xs : List Registered)
    → P x × All P xs
    → P (assign_hardware_affinity job_id x xs)
unfolding assign_hardware_affinity
affinity-All P job_id x xs ps =
    let arch = hint arch_prefix (parts job_id) [] in
    let c = prefer-All P (λ w. w.architecture == arch) arch x xs ps in
    let d =
      prefer-All P (λ w. contains (hint simd_prefix (parts job_id) []) w.simd_capabilities)
        (hint simd_prefix (parts job_id) []) _ _ c in
    least_loaded-All P _ _ d.0 d.1

-- Whatever holds of all candidates holds of the worker that a strategy chooses.
choose-All :
    (P : Registered → Type 0) (s : Strategy) (job_id : List ℕ) (rr : ℕ) (x : Registered)
    (xs : List Registered)
    → P x × All P xs
    → P (choose s job_id rr x xs).0
unfolding choose assign_round_robin
choose-All P round_robin job_id rr x xs ps = get_or-All P (x ∷ xs) _ x ps.0 ps
choose-All P least_loaded job_id rr x xs ps = least_loaded-All P x xs ps.0 ps.1
choose-All P hardware_affinity job_id rr x xs ps = affinity-All P job_id x xs ps
choose-All P (unknown t) job_id rr x xs ps = get_or-All P (x ∷ xs) _ x ps.0 ps

abbrev pub Assigned : CoordinatorNode → CoordinatorNode × Option String → Type 0
Assigned n (n', none) = (n' ≡ n) × (filter_by (λ w. w.healthy) n.workers ≡ [])
Assigned n (n', some id) =
    (w : WorkerInfo) × (lookup id n.workers ≡ some w)
    × (w.healthy ≡ true)
    × (n'.workers ≡ insert id (busier w) n.workers)

assign_from-Assigned :
    (n : CoordinatorNode) (s : Strategy) (job_id : List ℕ) (xs : List Registered)
    → All (λ x. ((lookup x.0 n.workers ≡ some x.1) × ((x.1).id ≡ x.0)) × ((x.1).healthy ≡ true)) xs
    → filter_by (λ w. w.healthy) n.workers ≡ xs
    → Assigned n (assign_from n s job_id xs)
assign_from-Assigned n s job_id [] ps e = (refl, e)
assign_from-Assigned n s job_id (x ∷ xs) ps e =
    let out = choose s job_id n.rr_index x xs in
    let ((found, keyed), well) =
      choose-All
        (λ x. ((lookup x.0 n.workers ≡ some x.1) × ((x.1).id ≡ x.0)) × ((x.1).healthy ≡ true)) s
        job_id n.rr_index x xs ps in
    ((out.0).1, rw keyed found, well, ap (λ k. insert k (busier (out.0).1) n.workers) (sym keyed))

pub assign_job-Assigned :
    (n : CoordinatorNode) (job_id : List ℕ) (s : Strategy)
    → IsRegistry n.workers
    → Assigned n (assign_job n job_id s)
unfolding assign_job Found
assign_job-Assigned n job_id s keyed =
    assign_from-Assigned n s job_id _
      (filter_by-All (λ x. (lookup x.0 n.workers ≡ some x.1) × ((x.1).id ≡ x.0)) (λ w. w.healthy)
        n.workers (IsRegistry-Found n.workers keyed))
      refl
