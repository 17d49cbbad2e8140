-- ===== src/Network/Coordinator/Defs.antt =====
-- The registry of workers and the choice of one for a job (uhcr/network/coordinator.py). A text that
-- the code takes apart (a job's identifier, an architecture, a feature) is the list of its
-- characters' codes; a time is a number of clock ticks.
use uhcr.Prelude.{
  ℕ, ◌+◌, ◌%◌, ◌≡◌, ◌↔◌, Bool, true, false, ◌||◌, ◌&&◌, List, [], ◌∷◌, Option, none, some, String,
  arith, Eq, ◌==◌, nat_eq, string_eq, contains, if◌then◌else◌, ltb, nat_beq, length, get_or,
  Outcome, ok, err,
}
use uhcr.Prelude.Dict.{lookup, insert, remove, values}

abbrev pub same_codes : List ℕ → List ℕ → Bool
same_codes [] [] = true
same_codes (a ∷ more) (b ∷ rest) = nat_beq a b && same_codes more rest
same_codes _ _ = false

pub same_codes_iff : (xs ys : List ℕ) → (same_codes xs ys ≡ true) ↔ (xs ≡ ys)
same_codes_iff [] [] = ground arith
same_codes_iff [] (y ∷ ys) = ground arith
same_codes_iff (x ∷ xs) [] = ground arith
same_codes_iff (x ∷ xs) (y ∷ ys) = ground (arith, same_codes_iff xs ys)

instance abbrev pub codes_eq : Eq (List ℕ)
codes_eq = record { beq = same_codes; beq_iff = same_codes_iff }

pub record WorkerInfo : Type 0 where
  pub id : String
  pub address : String
  pub architecture : List ℕ
  pub simd_capabilities : List (List ℕ)
  pub available_memory_mb : ℕ
  pub last_heartbeat : ℕ
  pub active_jobs : ℕ
  pub healthy : Bool

-- `_workers` and `_rr_index`
pub record CoordinatorNode : Type 0 where
  pub workers : List (String × WorkerInfo)
  pub rr_index : ℕ

pub data Strategy : Type 0 where
  round_robin least_loaded hardware_affinity : Strategy
  unknown : String → Strategy

-- An entry of the registry, with its key: the object that the code changes in place.
abbrev pub Registered : Type 0
Registered = String × WorkerInfo

unfoldable pub init : CoordinatorNode
init = record { workers = []; rr_index = 0 }

-- The name that a worker without one is given is an argument.
abbrev pub with_id : WorkerInfo → String → WorkerInfo
with_id w fresh = if w.id == "" then record w { id = fresh } else w

unfoldable pub register_worker : CoordinatorNode → WorkerInfo → String → CoordinatorNode × String
register_worker n w fresh = (
  record n { workers = insert (with_id w fresh).id (with_id w fresh) n.workers },
  (with_id w fresh).id,
)

unfoldable pub deregister_worker : CoordinatorNode → String → CoordinatorNode
deregister_worker n worker_id = record n { workers = remove worker_id n.workers }

-- The exception of an unknown worker carries its identifier.
abbrev pub beat : CoordinatorNode → String → ℕ → Option WorkerInfo → Outcome String CoordinatorNode
beat n worker_id now none = err worker_id
beat n worker_id now (some w) = ok (record n {
  workers = insert worker_id (record w { last_heartbeat = now; healthy = true }) n.workers;
})

unfoldable pub update_heartbeat : CoordinatorNode → String → ℕ → Outcome String CoordinatorNode
update_heartbeat n worker_id now = beat n worker_id now (lookup worker_id n.workers)

abbrev pub is_late : ℕ → ℕ → WorkerInfo → Bool
is_late threshold now w = ltb (w.last_heartbeat + threshold) now

-- The loop of `check_worker_health`: the registry after it, and the identifiers that it lists.
unfoldable pub mark_late : ℕ → ℕ → List Registered → List Registered × List String
mark_late threshold now [] = ([], [])
mark_late threshold now ((k, w) ∷ ws) =
    let rest = mark_late threshold now ws in
    if is_late threshold now w
    then ((k, record w { healthy = false }) ∷ rest.0, w.id ∷ rest.1)
    else ((k, w) ∷ rest.0, rest.1)

unfoldable pub check_worker_health : CoordinatorNode → ℕ → ℕ → CoordinatorNode × List String
unfolding mark_late
check_worker_health n threshold now =
    let out = mark_late threshold now n.workers in (record n { workers = out.0 }, out.1)

unfoldable pub filter_by : (WorkerInfo → Bool) → List Registered → List Registered
filter_by p [] = []
filter_by p (x ∷ xs) = let rest = filter_by p xs in if p x.1 then x ∷ rest else rest

-- `min(healthy, key=...)`: the first of the smallest.
unfoldable pub assign_least_loaded : Registered → List Registered → Registered
assign_least_loaded best [] = best
assign_least_loaded best (x ∷ xs) =
    assign_least_loaded (if ltb (x.1).active_jobs (best.1).active_jobs then x else best) xs

-- The cursor is clamped to the pool `x ∷ xs`, read, and moved on.
unfoldable pub assign_round_robin : ℕ → Registered → List Registered → Registered × ℕ
assign_round_robin rr x xs =
    let n = length (x ∷ xs) in (get_or (x ∷ xs) (rr % n) x, (rr % n + 1) % n)

-- `job_id.replace("-", "_").split("_")`
abbrev pub is_separator : ℕ → Bool
is_separator c = nat_beq c b'-' || nat_beq c b'_'

abbrev pub onto_first : ℕ → List (List ℕ) → List (List ℕ)
onto_first c [] = (c ∷ []) ∷ []
onto_first c (p ∷ ps) = (c ∷ p) ∷ ps

unfoldable pub parts : List ℕ → List (List ℕ)
parts [] = [] ∷ []
parts (c ∷ cs) = let rest = parts cs in if is_separator c then [] ∷ rest else onto_first c rest

-- `part[5:]` of a part that starts with the prefix.
abbrev pub after_prefix : List ℕ → List ℕ → Option (List ℕ)
after_prefix [] cs = some cs
after_prefix (p ∷ ps) [] = none
after_prefix (p ∷ ps) (c ∷ cs) = if nat_beq p c then after_prefix ps cs else none

abbrev pub arch_prefix : List ℕ
arch_prefix = b'a' ∷ b'r' ∷ b'c' ∷ b'h' ∷ b':' ∷ []

abbrev pub simd_prefix : List ℕ
simd_prefix = b's' ∷ b'i' ∷ b'm' ∷ b'd' ∷ b':' ∷ []

-- The hint of the last part with the prefix. An absent hint and an empty one are both falsy.
unfoldable pub hint : List ℕ → List (List ℕ) → List ℕ → List ℕ
hint prefix [] found = found
hint prefix (p ∷ ps) found =
    hint prefix ps (elim (after_prefix prefix p) [ none ↦ found | some h ↦ h ])

-- The workers that match a hint, or all of them if there is no hint or no match.
abbrev pub or_else : List Registered → Registered → List Registered → Registered × List Registered
or_else [] x xs = (x, xs)
or_else (y ∷ ys) x xs = (y, ys)

unfoldable pub prefer :
    (WorkerInfo → Bool) → List ℕ → Registered → List Registered → Registered × List Registered
unfolding filter_by
prefer p [] x xs = (x, xs)
prefer p (c ∷ cs) x xs = or_else (filter_by p (x ∷ xs)) x xs

unfoldable pub assign_hardware_affinity : List ℕ → Registered → List Registered → Registered
unfolding prefer hint parts assign_least_loaded
assign_hardware_affinity job_id x xs =
    let arch = hint arch_prefix (parts job_id) [] in
    let simd = hint simd_prefix (parts job_id) [] in
    let c = prefer (λ w. w.architecture == arch) arch x xs in
    let d = prefer (λ w. contains simd w.simd_capabilities) simd c.0 c.1 in
    assign_least_loaded d.0 d.1

-- The chosen worker and the cursor after it.
unfoldable pub choose : Strategy → List ℕ → ℕ → Registered → List Registered → Registered × ℕ
unfolding assign_round_robin assign_least_loaded assign_hardware_affinity
choose round_robin job_id rr x xs = assign_round_robin rr x xs
choose least_loaded job_id rr x xs = (assign_least_loaded x xs, rr)
choose hardware_affinity job_id rr x xs = (assign_hardware_affinity job_id x xs, rr)
choose (unknown _) job_id rr x xs = assign_round_robin rr x xs

abbrev pub busier : WorkerInfo → WorkerInfo
busier w = record w { active_jobs = w.active_jobs + 1 }

abbrev pub assign_from :
    CoordinatorNode → Strategy → List ℕ → List Registered → CoordinatorNode × Option String
assign_from n strategy job_id [] = (n, none)
assign_from n strategy job_id (x ∷ xs) =
    let out = choose strategy job_id n.rr_index x xs in
    (
      record { workers = insert (out.0).0 (busier (out.0).1) n.workers; rr_index = out.1 },
      some ((out.0).1).id,
    )

unfoldable pub assign_job : CoordinatorNode → List ℕ → Strategy → CoordinatorNode × Option String
unfolding choose filter_by
assign_job n job_id strategy = assign_from n strategy job_id (filter_by (λ w. w.healthy) n.workers)

unfoldable pub list_workers : CoordinatorNode → Bool → List WorkerInfo
unfolding filter_by
list_workers n healthy_only =
    if healthy_only then values (filter_by (λ w. w.healthy) n.workers) else values n.workers

unfoldable pub get_worker : CoordinatorNode → String → Option WorkerInfo
get_worker n worker_id = lookup worker_id n.workers
