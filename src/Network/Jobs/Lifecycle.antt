-- ===== src/Network/Jobs/Lifecycle.antt =====
-- The lifecycle of a job: what each method of `JobManager` accepts and what it leaves alone.
use uhcr.Prelude.{
  ℕ, ◌≤◌, ◌≡◌, ◌≢◌, ◌⊎◌, inl, inr, refl, true, false, List, [], ◌∷◌, Option, none, some, String, ℤ,
  arith, ◌==◌, string_eq, Bool-cases, ==_refl, ==→≡, subst, ap,
}
use uhcr.Prelude.Dict.{lookup, insert, lookup-insert}
use uhcr.Network.Jobs.Status.{
  JobStatus, queued, running, completed, failed, timeout, status_eq, is_terminal, key_error,
  invalid_transition, Job, JobManager, Result,
}
use uhcr.Prelude.{ok, err}
use uhcr.Network.Jobs.Methods.{
  submit_job, start_job, complete_job, fail_job, cancel_job, store, queued_job, effective_timeout,
  cancel_message, force_running,
}
use uhcr.Network.Jobs.Outcomes.{
  start_job-eq-ok, complete_job-eq-ok, fail_job-eq-ok, cancel_job-eq-ok,
}
use uhcr.Network.Jobs.Calls.{
  Call, submit, start, complete, fail, cancel, settle, settle_submit, perform, IsFresh, run,
  AllFresh,
}

-- How far a job has come.
abbrev pub stage : JobStatus → ℕ
stage queued = 0
stage running = 1
stage completed = 2
stage failed = 2
stage timeout = 2

-- The job that a call finds under an identifier, against the one that it leaves there.
pub record Advances (old new : Job) : Type 0 where
  pub same_id : new.id ≡ old.id
  pub same_payload : new.payload ≡ old.payload
  pub same_submission : new.submitted_at ≡ old.submitted_at
  pub same_limit : new.timeout_seconds ≡ old.timeout_seconds
  pub forward : stage old.status ≤ stage new.status
  pub frozen : is_terminal old.status ≡ true → new ≡ old

abbrev pub AdvancesTo : Job → Option Job → Type 0
AdvancesTo old none = ⊥
AdvancesTo old (some new) = Advances old new

Advances-refl : (j : Job) → Advances j j
Advances-refl j = record {
  same_id = refl;
  same_payload = refl;
  same_submission = refl;
  same_limit = refl;
  forward = omega arith;
  frozen = λ _. refl;
}

-- Reading `q` after a write under `k`, from what is known of the job that was there.
advance_store :
    (m : JobManager) (k q : String) (j j' : Job) {old : Job}
    → lookup k m.jobs ≡ some j
    → Advances j j'
    → lookup q m.jobs ≡ some old
    → AdvancesTo old (lookup q (insert k j' m.jobs))
advance_store m k q j j' {old} hk a hq = elim (Bool-cases (k == q)) [
  | inl e ↦ rw (lookup-insert, e) (subst (λ x. Advances x j') (cc (==→≡ k q e)) a)
  | inr e ↦ rw (lookup-insert, e, hq) (Advances-refl old)
]

-- A success that wrote one job forward, or nothing.
abbrev Moved : JobManager → String → JobManager → Type 0
Moved m k m' =
    ((j : Job) × (j' : Job) × (lookup k m.jobs ≡ some j) × Advances j j' × (m' ≡ store m k j'))
    ⊎ (m' ≡ m)

advance_settle :
    (m : JobManager) (k q : String) (r : Result JobManager) {old : Job}
    → lookup q m.jobs ≡ some old
    → ((m' : JobManager) → r ≡ ok m' → Moved m k m')
    → AdvancesTo old (lookup q (settle m r).jobs)
advance_settle m k q (err e) hq wrote = rw hq (Advances-refl _)
advance_settle m k q (ok m') hq wrote = elim (wrote m' refl) [
  | inl (j, j', e, a, w) ↦ rw w (advance_store m k q j j' e a hq)
  | inr e ↦ rw (e, hq) (Advances-refl _)
]

module _ (m : JobManager) (k : String) {m' : JobManager} where
  start_job-Moved : (w : String) (n : ℕ) → start_job m k w n ≡ ok m' → Moved m k m'
  unfolding is_terminal
  start_job-Moved w n h =
      let (j, e, s, out) = start_job-eq-ok m k w n h in inl (j, _, e, ground arith, out)

  complete_job-Moved : (b : List ℕ) (n : ℕ) → complete_job m k b n ≡ ok m' → Moved m k m'
  unfolding is_terminal
  complete_job-Moved b n h =
      let (j, e, s, out) = complete_job-eq-ok m k b n h in inl (j, _, e, ground arith, out)

  fail_job-Moved : (r : String) (n : ℕ) → fail_job m k r n ≡ ok m' → Moved m k m'
  unfolding is_terminal
  fail_job-Moved r n h =
      let (j, e, s, out) = fail_job-eq-ok m k r n h in inl (j, _, e, ground arith, out)

  cancel_job-Moved : (b n : ℕ) → cancel_job m k b n ≡ ok m' → Moved m k m'
  unfolding is_terminal force_running
  cancel_job-Moved b n h =
      let (j, e, out) = cancel_job-eq-ok m k b n h in
      elim out [ inl (_, same) ↦ inr same | inr (open', w) ↦ inl (j, _, e, ground arith, w) ]

-- A new job stands under a fresh identifier, and every other job stays.
submit_job-others :
    (m : JobManager) (p : List ℕ) (t : ℤ) (k : String) (n : ℕ) (q : String) {old : Job}
    → lookup k m.jobs ≡ none
    → lookup q m.jobs ≡ some old
    → lookup q (settle_submit m (submit_job m p t k n)).jobs ≡ some old
unfolding submit_job
submit_job-others m p t k n q fresh hq =
    grind (arith, ==→≡ k q, lookup-insert k q (queued_job p (effective_timeout m t) k n) m.jobs)

-- Every call leaves a job that the table holds where it is, with its identity, its payload, its
-- submission time and its time limit; its stage never falls, and a terminal job is not changed.
pub perform-Advances :
    (m : JobManager) (c : Call) (q : String) {old : Job}
    → IsFresh m c
    → lookup q m.jobs ≡ some old
    → AdvancesTo old (lookup q (perform m c).jobs)
unfolding perform
perform-Advances m (submit p t k n) q fresh hq =
    rw (submit_job-others m p t k n q fresh hq) (Advances-refl _)
perform-Advances m (start k w n) q fresh hq =
    advance_settle m k q _ hq (λ m'. start_job-Moved m k w n)
perform-Advances m (complete k b n) q fresh hq =
    advance_settle m k q _ hq (λ m'. complete_job-Moved m k b n)
perform-Advances m (fail k r n) q fresh hq =
    advance_settle m k q _ hq (λ m'. fail_job-Moved m k r n)
perform-Advances m (cancel k b n) q fresh hq =
    advance_settle m k q _ hq (λ m'. cancel_job-Moved m k b n)

-- A job that has reached a terminal state is never changed again, whatever calls follow.
pub run-terminal :
    (m : JobManager) (cs : List Call) (q : String) {old : Job}
    → AllFresh m cs
    → lookup q m.jobs ≡ some old
    → is_terminal old.status ≡ true
    → lookup q (run m cs).jobs ≡ some old
unfolding run
run-terminal m [] q fresh hq t = hq
run-terminal m (c ∷ cs) q {old} fresh hq t =
    run-terminal (perform m c) cs q fresh.1 (kept (lookup q (perform m c).jobs) refl) t
  where
    kept : (o : Option Job) → lookup q (perform m c).jobs ≡ o → o ≡ some old
    kept none e = absurd (rw e at (perform-Advances m c q fresh.0 hq))
    kept (some new) e = ap some ((rw e at (perform-Advances m c q fresh.0 hq)).frozen t)

-- The job that `cancel_job` leaves in place of one that had not ended.
abbrev pub cancelled : Job → ℕ → ℕ → Job
cancelled j before now = record (force_running j before) {
  status = timeout;
  error = some cancel_message;
  completed_at = some now;
}

-- `cancel_job` leaves a terminal job as it is, and ends any other job that the table holds in
-- TIMEOUT, with the message, the time of the call, and its result and worker kept; a second call
-- returns normally and changes nothing.
pub cancel_job-cancel_job :
    (m : JobManager) (k : String) (b n b' n' : ℕ) {j : Job}
    → lookup k m.jobs ≡ some j
    → (m' : JobManager) × (cancel_job m k b n ≡ ok m')
      × (cancel_job m' k b' n' ≡ ok m')
      × (j' : Job) × (lookup k m'.jobs ≡ some j')
      × (is_terminal j.status ≡ true → j' ≡ j)
      × (is_terminal j.status ≡ false
          → (j'.status ≡ timeout)
            × (j'.error ≡ some cancel_message)
            × (j'.completed_at ≡ some n)
            × (j'.result ≡ j.result)
            × (j'.worker_id ≡ j.worker_id))
unfolding cancel_job force_running is_terminal
cancel_job-cancel_job m k b n b' n' {j} e = elim (Bool-cases (is_terminal j.status)) [
  | inl t ↦ (m, ground arith, ground arith, j, e, (λ _. refl), λ h. cc)
  | inr open' ↦
      let m' = store m k (cancelled j b n) in
      let here : lookup k m'.jobs ≡ some (cancelled j b n) = simp (lookup-insert, ==_refl) in
      (m', ground arith, ground arith, cancelled j b n, here, (λ h. cc), λ _. ground arith)
]

-- `start_job`, `complete_job` and `fail_job` refuse an unknown job with its identifier, and a job
-- that is in the wrong state with its identifier, that state and the state asked for: QUEUED alone
-- can start, RUNNING alone can complete or fail.
pub refused_calls :
    (m : JobManager) (k w r : String) (b : List ℕ) (n : ℕ)
    → (lookup k m.jobs ≡ none
        → (start_job m k w n ≡ err (key_error k))
          × (complete_job m k b n ≡ err (key_error k))
          × (fail_job m k r n ≡ err (key_error k)))
      × ((j : Job)
          → lookup k m.jobs ≡ some j
          → (j.status ≢ queued → start_job m k w n ≡ err (invalid_transition j.id j.status running))
            × (j.status ≢ running
                → (complete_job m k b n ≡ err (invalid_transition j.id j.status completed))
                  × (fail_job m k r n ≡ err (invalid_transition j.id j.status failed))))
unfolding start_job complete_job fail_job
refused_calls m k w r b n = ((λ e. ground arith), λ j e. ((λ h. ground arith), λ h. ground arith))
