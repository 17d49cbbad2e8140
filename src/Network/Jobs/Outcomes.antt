-- ===== src/Network/Jobs/Outcomes.antt =====
-- What a successful call of a `JobManager` method found in the table and what it wrote.
use uhcr.Prelude.{
  ℕ, ◌≡◌, ◌≢◌, ◌⊎◌, inl, inr, true, false, List, [], some, String, ℤ, pos, arith, string_eq, ltb_ℤ,
  Option-cases,
}
use uhcr.Prelude.Dict.{lookup}
use uhcr.Network.Jobs.Status.{
  JobStatus, queued, running, completed, failed, timeout, status_eq, is_terminal, Job, JobManager,
}
use uhcr.Prelude.{ok}
use uhcr.Network.Jobs.Methods.{
  submit_job, start_job, complete_job, fail_job, cancel_job, store, queued_job, effective_timeout,
  cancel_message, force_running,
}

-- What a successful call found and what it wrote.
abbrev Wrote : JobManager → String → JobManager → (Job → Job) → JobStatus → Type 0
Wrote m k m' f s = (j : Job) × (lookup k m.jobs ≡ some j) × (j.status ≡ s) × (m' ≡ store m k (f j))

module _ (m : JobManager) (k : String) {m' : JobManager} where
  pub start_job-eq-ok :
      (w : String) (n : ℕ)
      → start_job m k w n ≡ ok m'
      → Wrote m k m'
          (λ j. record j { status = running; worker_id = some w; started_at = some n })
          queued
  unfolding start_job
  start_job-eq-ok w n h = elim (Option-cases (lookup k m.jobs)) [
    | inl e ↦ absurd (ground arith)
    | inr (j, e) ↦ (j, e, ground arith, ground arith)
  ]

  pub complete_job-eq-ok :
      (bytes : List ℕ) (n : ℕ)
      → complete_job m k bytes n ≡ ok m'
      → Wrote m k m'
          (λ j. record j { status = completed; result = some bytes; completed_at = some n })
          running
  unfolding complete_job
  complete_job-eq-ok bytes n h = elim (Option-cases (lookup k m.jobs)) [
    | inl e ↦ absurd (ground arith)
    | inr (j, e) ↦ (j, e, ground arith, ground arith)
  ]

  pub fail_job-eq-ok :
      (reason : String) (n : ℕ)
      → fail_job m k reason n ≡ ok m'
      → Wrote m k m'
          (λ j. record j { status = failed; error = some reason; completed_at = some n })
          running
  unfolding fail_job
  fail_job-eq-ok reason n h = elim (Option-cases (lookup k m.jobs)) [
    | inl e ↦ absurd (ground arith)
    | inr (j, e) ↦ (j, e, ground arith, ground arith)
  ]

  pub cancel_job-eq-ok :
      (b n : ℕ)
      → cancel_job m k b n ≡ ok m'
      → (j : Job) × (lookup k m.jobs ≡ some j)
        × ((is_terminal j.status ≡ true) × (m' ≡ m)
            ⊎ (is_terminal j.status ≡ false)
              × (m'
                  ≡ store m k (record (force_running j b) {
                    status = timeout;
                    error = some cancel_message;
                    completed_at = some n;
                  })))
  unfolding cancel_job
  cancel_job-eq-ok b n h = elim (Option-cases (lookup k m.jobs)) [
    | inl e ↦ absurd (ground arith)
    | inr (j, e) ↦ (j, e, ground arith)
  ]

  pub submit_job-eq-ok :
      (p : List ℕ) (t : ℤ) (n : ℕ) {id : String}
      → submit_job m p t k n ≡ ok (m', id)
      → (m' ≡ store m k (queued_job p (effective_timeout m t) k n))
        × (id ≡ k)
        × (p ≢ [])
        × (ltb_ℤ (effective_timeout m t) (pos 0) ≡ false)
  unfolding submit_job
  submit_job-eq-ok p t n h = ground arith
