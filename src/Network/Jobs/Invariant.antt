-- ===== src/Network/Jobs/Invariant.antt =====
-- The fields of a job agree with its state, in every table that calls can build.
use uhcr.Prelude.{
  ℕ, ◌≡◌, Bool, true, false, not, List, [], ◌∷◌, Option, none, some, String, ℤ, arith, ◌==◌, ◌||◌,
  string_eq, Bool-cases, ==→≡, inl, inr, sym, subst, refl,
}
use uhcr.Network.Jobs.Lifecycle.{cancelled}
use uhcr.Prelude.Dict.{lookup, lookup-insert}
use uhcr.Network.Jobs.Status.{
  queued, running, completed, failed, timeout, status_eq, is_terminal, Job, JobManager, Result,
}
use uhcr.Prelude.{ok, err}
use uhcr.Network.Jobs.Methods.{
  init, submit_job, start_job, complete_job, fail_job, cancel_job, store, queued_job,
  effective_timeout, force_running,
}
use uhcr.Network.Jobs.Outcomes.{
  start_job-eq-ok, complete_job-eq-ok, fail_job-eq-ok, cancel_job-eq-ok, submit_job-eq-ok,
}
use uhcr.Network.Jobs.Calls.{
  Call, submit, start, complete, fail, cancel, settle, settle_submit, perform, run,
}

abbrev is_some : {A : Type 0} → Option A → Bool
is_some none = false
is_some (some _) = true

-- A job under the identifier `k`: its times, result, error and worker are set as its state says.
pub record IsConsistent (k : String) (j : Job) : Type 0 where
  pub keyed : j.id ≡ k
  pub started : is_some j.started_at ≡ not (j.status == queued)
  pub finished : is_some j.completed_at ≡ is_terminal j.status
  pub has_result : is_some j.result ≡ (j.status == completed)
  pub has_error : is_some j.error ≡ (j.status == failed || j.status == timeout)
  pub unassigned : j.status ≡ queued → j.worker_id ≡ none
  pub assigned :
      (j.status == running || j.status == completed || j.status == failed) ≡ true
      → is_some j.worker_id ≡ true

abbrev pub IsValid : JobManager → Type 0
IsValid m = (k : String) (j : Job) → lookup k m.jobs ≡ some j → IsConsistent k j

init-IsValid : (t : ℤ) → IsValid (init t)
unfolding init lookup
init-IsValid t k j h = cc

queued_job-IsConsistent :
    (p : List ℕ) (t : ℤ) (k : String) (n : ℕ) → IsConsistent k (queued_job p t k n)
unfolding is_terminal
queued_job-IsConsistent p t k n = ground arith

store-IsValid :
    (m : JobManager) (k : String) (j' : Job)
    → IsValid m
    → IsConsistent k j'
    → IsValid (store m k j')
store-IsValid m k j' v c q j h = elim (Bool-cases (k == q)) [
  | inl e ↦
      let found : some j' ≡ some j = rw (lookup-insert, e) at h in
      let same : j' ≡ j = cc in
      subst (λ i. IsConsistent i j) (==→≡ k q e) (subst (IsConsistent k) same c)
  | inr e ↦ v q j (rw (lookup-insert, e) at h)
]

settle-IsValid :
    (m : JobManager) (r : Result JobManager)
    → IsValid m
    → ((m' : JobManager) → r ≡ ok m' → IsValid m')
    → IsValid (settle m r)
settle-IsValid m (ok m') v keep = keep m' refl
settle-IsValid m (err e) v keep = v

module _ (m : JobManager) (k : String) (v : IsValid m) where
  start_job-IsValid :
      (w : String) (n : ℕ) (m' : JobManager) → start_job m k w n ≡ ok m' → IsValid m'
  unfolding is_terminal
  start_job-IsValid w n m' h =
      let (j, e, s, out) = start_job-eq-ok m k w n h in
      let c = v k j e in subst IsValid (sym out) (store-IsValid m k _ v (ground arith))

  complete_job-IsValid :
      (b : List ℕ) (n : ℕ) (m' : JobManager) → complete_job m k b n ≡ ok m' → IsValid m'
  unfolding is_terminal
  complete_job-IsValid b n m' h =
      let (j, e, s, out) = complete_job-eq-ok m k b n h in
      let c = v k j e in subst IsValid (sym out) (store-IsValid m k _ v (ground arith))

  fail_job-IsValid : (r : String) (n : ℕ) (m' : JobManager) → fail_job m k r n ≡ ok m' → IsValid m'
  unfolding is_terminal
  fail_job-IsValid r n m' h =
      let (j, e, s, out) = fail_job-eq-ok m k r n h in
      let c = v k j e in subst IsValid (sym out) (store-IsValid m k _ v (ground arith))

  cancelled-IsConsistent :
      (b n : ℕ) {j : Job}
      → IsConsistent k j
      → is_terminal j.status ≡ false
      → IsConsistent k (cancelled j b n)
  unfolding is_terminal force_running
  cancelled-IsConsistent b n c h = ground arith

  cancel_job-IsValid : (b n : ℕ) (m' : JobManager) → cancel_job m k b n ≡ ok m' → IsValid m'
  cancel_job-IsValid b n m' h =
      let (j, e, out) = cancel_job-eq-ok m k b n h in
      elim out [
        | inl (_, same) ↦ subst IsValid (sym same) v
        | inr (open', w) ↦
            subst IsValid (sym w)
              (store-IsValid m k _ v (cancelled-IsConsistent b n (v k j e) open'))
      ]

submit_job-IsValid :
    (m : JobManager) (p : List ℕ) (t : ℤ) (k : String) (n : ℕ)
    → IsValid m
    → (r : Result (JobManager × String)) → submit_job m p t k n ≡ r
    → IsValid (settle_submit m r)
submit_job-IsValid m p t k n v (err e) h = v
submit_job-IsValid m p t k n v (ok (m', id)) h =
    let (w, _, _, _) = submit_job-eq-ok m k p t n h in
    subst IsValid (sym w)
      (store-IsValid m k _ v (queued_job-IsConsistent p (effective_timeout m t) k n))

-- Every call keeps the invariant.
pub perform-IsValid : (m : JobManager) (c : Call) → IsValid m → IsValid (perform m c)
unfolding perform
perform-IsValid m (submit p t k n) v = submit_job-IsValid m p t k n v _ refl
perform-IsValid m (start k w n) v = settle-IsValid m _ v (start_job-IsValid m k v w n)
perform-IsValid m (complete k b n) v = settle-IsValid m _ v (complete_job-IsValid m k v b n)
perform-IsValid m (fail k r n) v = settle-IsValid m _ v (fail_job-IsValid m k v r n)
perform-IsValid m (cancel k b n) v = settle-IsValid m _ v (cancel_job-IsValid m k v b n)

run-IsValid : (m : JobManager) (cs : List Call) → IsValid m → IsValid (run m cs)
unfolding run
run-IsValid m [] v = v
run-IsValid m (c ∷ cs) v = run-IsValid (perform m c) cs (perform-IsValid m c v)

-- In every table that calls build from an empty manager, a job stands under its own identifier; it
-- has a start time exactly when it has left QUEUED, an end time exactly when it is terminal, a
-- result exactly when COMPLETED, an error exactly when FAILED or TIMEOUT, no worker while QUEUED,
-- and a worker while RUNNING and once COMPLETED or FAILED.
pub run-init-IsValid : (t : ℤ) (cs : List Call) → IsValid (run (init t) cs)
run-init-IsValid t cs = run-IsValid (init t) cs (init-IsValid t)
