-- ===== src/Network/Jobs/Calls.antt =====
-- Sequences of calls on a `JobManager` (uhcr/network/jobs.py).
use uhcr.Prelude.{ℕ, ◌≡◌, List, [], ◌∷◌, none, String, ℤ, string_eq}
use uhcr.Prelude.Dict.{lookup}
use uhcr.Network.Jobs.Status.{status_eq, JobManager, Result}
use uhcr.Prelude.{ok, err}
use uhcr.Network.Jobs.Methods.{submit_job, start_job, complete_job, fail_job, cancel_job}

-- A call of a method that writes the table, with the values that it reads from outside.
pub data Call : Type 0 where
  submit : List ℕ → ℤ → String → ℕ → Call
  start : String → String → ℕ → Call
  complete : String → List ℕ → ℕ → Call
  fail : String → String → ℕ → Call
  cancel : String → ℕ → ℕ → Call

-- The table after a call: a call that raises leaves it as it was.
abbrev pub settle : JobManager → Result JobManager → JobManager
settle m (ok m') = m'
settle m (err e) = m

abbrev pub settle_submit : JobManager → Result (JobManager × String) → JobManager
settle_submit m (ok (m', _)) = m'
settle_submit m (err e) = m

unfoldable pub perform : JobManager → Call → JobManager
perform m (submit payload t job_id now) = settle_submit m (submit_job m payload t job_id now)
perform m (start job_id worker now) = settle m (start_job m job_id worker now)
perform m (complete job_id bytes now) = settle m (complete_job m job_id bytes now)
perform m (fail job_id reason now) = settle m (fail_job m job_id reason now)
perform m (cancel job_id before now) = settle m (cancel_job m job_id before now)

-- `uuid4()` gives an identifier that no job of the table has.
abbrev pub IsFresh : JobManager → Call → Type 0
IsFresh m (submit payload t job_id now) = lookup job_id m.jobs ≡ none
IsFresh m _ = Unit

unfoldable pub run : JobManager → List Call → JobManager
run m [] = m
run m (c ∷ cs) = run (perform m c) cs

abbrev pub AllFresh : JobManager → List Call → Type 0
AllFresh m [] = Unit
AllFresh m (c ∷ cs) = IsFresh m c × AllFresh (perform m c) cs
