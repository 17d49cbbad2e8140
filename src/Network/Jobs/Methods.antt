-- ===== src/Network/Jobs/Methods.antt =====
-- The methods of `JobManager` (uhcr/network/jobs.py).
use uhcr.Prelude.{
  ℕ, not, List, [], ◌∷◌, Option, none, some, String, ℤ, pos, ◌==◌, string_eq, contains,
  if◌then◌else◌, length, leb, ltb_ℤ,
}
use uhcr.Prelude.Dict.{lookup, insert, values}
use uhcr.Network.Jobs.Status.{
  JobStatus, queued, running, completed, failed, timeout, status_eq, valid_transitions, is_terminal,
  key_error, invalid_transition, invalid_payload, value_error, Job, JobManager, Result,
}
use uhcr.Prelude.{ok, err, ◌>>=◌, ◌>>◌, guard}

unfoldable pub init : ℤ → JobManager
init t = record { jobs = []; default_timeout = t }

-- `_MIN_PAYLOAD_SIZE`
abbrev pub min_payload_size : ℕ
min_payload_size = 1

-- A payload is a sequence of bytes here, so the test of its Python type passes.
unfoldable pub validate_payload : List ℕ → Result (Unit {0})
validate_payload payload = guard (leb min_payload_size (length payload)) invalid_payload

unfoldable pub get_job_or_raise : JobManager → String → Result Job
get_job_or_raise m job_id = elim (lookup job_id m.jobs) [
  | none ↦ err (key_error job_id)
  | some job ↦ ok job
]

unfoldable pub transition : Job → JobStatus → Result Job
unfolding valid_transitions
transition job target =
    if contains target (valid_transitions job.status)
    then ok (record job { status = target })
    else err (invalid_transition job.id job.status target)

-- The dictionary after the object that it holds under `job_id` has been written.
abbrev pub store : JobManager → String → Job → JobManager
store m job_id job = record m { jobs = insert job_id job m.jobs }

-- `timeout if timeout > 0 else self._default_timeout`
abbrev pub effective_timeout : JobManager → ℤ → ℤ
effective_timeout m t = if ltb_ℤ (pos 0) t then t else m.default_timeout

-- The record that `submit_job` files.
abbrev pub queued_job : List ℕ → ℤ → String → ℕ → Job
queued_job payload limit job_id now = record {
  id = job_id;
  status = queued;
  payload = payload;
  submitted_at = now;
  started_at = none;
  completed_at = none;
  result = none;
  error = none;
  timeout_seconds = limit;
  worker_id = none;
}

unfoldable pub submit_job : JobManager → List ℕ → ℤ → String → ℕ → Result (JobManager × String)
unfolding validate_payload
submit_job m payload t job_id now = do
  validate_payload payload
  guard (not (ltb_ℤ (effective_timeout m t) (pos 0))) value_error
  ok (store m job_id (queued_job payload (effective_timeout m t) job_id now), job_id)

unfoldable pub start_job : JobManager → String → String → ℕ → Result JobManager
unfolding get_job_or_raise transition
start_job m job_id worker now = do
  job ← get_job_or_raise m job_id
  job' ← transition job running
  ok (store m job_id (record job' { worker_id = some worker; started_at = some now }))

unfoldable pub complete_job : JobManager → String → List ℕ → ℕ → Result JobManager
unfolding get_job_or_raise transition
complete_job m job_id bytes now = do
  job ← get_job_or_raise m job_id
  job' ← transition job completed
  ok (store m job_id (record job' { result = some bytes; completed_at = some now }))

unfoldable pub fail_job : JobManager → String → String → ℕ → Result JobManager
unfolding get_job_or_raise transition
fail_job m job_id reason now = do
  job ← get_job_or_raise m job_id
  job' ← transition job failed
  ok (store m job_id (record job' { error = some reason; completed_at = some now }))

-- `job.started_at or now`: a `datetime` is never falsy.
abbrev pub or_now : Option ℕ → ℕ → Option ℕ
or_now none now = some now
or_now (some t) now = some t

-- The first half of `cancel_job`: a queued job is set to running with no use of the table.
unfoldable pub force_running : Job → ℕ → Job
force_running job now =
    if job.status == queued
    then record job { status = running; started_at = or_now job.started_at now }
    else job

abbrev pub cancel_message : String
cancel_message = "Job cancelled (timeout)"

-- `before` and `now` are the two times that the method reads.
unfoldable pub cancel_job : JobManager → String → ℕ → ℕ → Result JobManager
unfolding get_job_or_raise transition force_running is_terminal
cancel_job m job_id before now = do
  job ← get_job_or_raise m job_id
  if is_terminal job.status then ok m else do
    job' ← transition (force_running job before) timeout
    ok (store m job_id (record job' { error = some cancel_message; completed_at = some now }))

unfoldable pub get_job : JobManager → String → Option Job
get_job m job_id = lookup job_id m.jobs

unfoldable pub get_status : JobManager → String → Option JobStatus
get_status m job_id = elim (lookup job_id m.jobs) [ none ↦ none | some job ↦ some job.status ]

unfoldable pub with_status : JobStatus → List Job → List Job
with_status s [] = []
with_status s (j ∷ js) = let rest = with_status s js in if j.status == s then j ∷ rest else rest

unfoldable pub list_jobs : JobManager → Option JobStatus → List Job
unfolding with_status
list_jobs m none = values m.jobs
list_jobs m (some s) = with_status s (values m.jobs)

unfoldable pub job_count : JobManager → ℕ
job_count m = length (values m.jobs)
