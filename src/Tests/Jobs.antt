-- ===== src/Tests/Jobs.antt =====
-- The job manager of uhcr/network/jobs.py on a few calls.
use uhcr.Prelude.{ℕ, ◌≡◌, ◌≢◌, refl, List, [], ◌∷◌, none, some, pos, true, false, string_eq}
use uhcr.Prelude.Dict.{lookup}
use uhcr.Network.Jobs.Status.{
  queued, running, completed, failed, timeout, Job, JobManager, key_error, invalid_transition,
  is_terminal,
}
use uhcr.Prelude.{ok, err}
use uhcr.Network.Jobs.Methods.{
  init, start_job, complete_job, fail_job, cancel_job, queued_job, cancel_message,
}
use uhcr.Network.Jobs.Calls.{Call, submit, start, cancel, perform, run}
use uhcr.Network.Jobs.Lifecycle.{
  AdvancesTo, perform-Advances, run-terminal, cancel_job-cancel_job, refused_calls,
}
use uhcr.Network.Jobs.Invariant.{IsValid, run-init-IsValid}

abbrev payload : List ℕ
payload = 85 ∷ 72 ∷ []

abbrev job : Job
job = queued_job payload (pos 300) "a" 1

abbrev ended : Job
ended = record job {
  status = completed;
  worker_id = some "w";
  started_at = some 2;
  completed_at = some 3;
  result = some payload;
}

abbrev manager : JobManager
manager = record { jobs = ("a", ended) ∷ ("b", job) ∷ []; default_timeout = pos 300 }

abbrev calls : List Call
calls = start "a" "v" 4 ∷ cancel "b" 5 6 ∷ []

perform-Advances_example : AdvancesTo job (lookup "b" (perform manager (start "b" "v" 4)).jobs)
unfolding lookup
perform-Advances_example = perform-Advances manager (start "b" "v" 4) "b" {old = job} tt refl

run-terminal_example : lookup "a" (run manager calls).jobs ≡ some ended
unfolding lookup is_terminal
run-terminal_example = run-terminal manager calls "a" {old = ended} (tt, (tt, tt)) refl refl

cancel_job-cancel_job_example :
    (m' : JobManager) × (cancel_job manager "b" 5 6 ≡ ok m')
    × (cancel_job m' "b" 7 8 ≡ ok m')
    × (j' : Job) × (lookup "b" m'.jobs ≡ some j')
    × (is_terminal job.status ≡ true → j' ≡ job)
    × (is_terminal job.status ≡ false
        → (j'.status ≡ timeout)
          × (j'.error ≡ some cancel_message)
          × (j'.completed_at ≡ some 6)
          × (j'.result ≡ job.result)
          × (j'.worker_id ≡ job.worker_id))
unfolding lookup
cancel_job-cancel_job_example = cancel_job-cancel_job manager "b" 5 6 7 8 {j = job} refl

refused_calls_example :
    (lookup "a" manager.jobs ≡ none
      → (start_job manager "a" "v" 4 ≡ err (key_error "a"))
        × (complete_job manager "a" payload 4 ≡ err (key_error "a"))
        × (fail_job manager "a" "no" 4 ≡ err (key_error "a")))
    × ((j : Job)
        → lookup "a" manager.jobs ≡ some j
        → (j.status ≢ queued
            → start_job manager "a" "v" 4 ≡ err (invalid_transition j.id j.status running))
          × (j.status ≢ running
              → (complete_job manager "a" payload 4
                  ≡ err (invalid_transition j.id j.status completed))
                × (fail_job manager "a" "no" 4 ≡ err (invalid_transition j.id j.status failed))))
refused_calls_example = refused_calls manager "a" "v" "no" payload 4

run-init-IsValid_example : IsValid (run (init (pos 300)) (submit payload (pos 0) "a" 1 ∷ calls))
run-init-IsValid_example = run-init-IsValid (pos 300) (submit payload (pos 0) "a" 1 ∷ calls)
