-- ===== src/Network/Jobs/Submit.antt =====
-- What `submit_job` (uhcr/network/jobs.py) does with every payload and timeout.
use uhcr.Prelude.{ℕ, ◌≡◌, ◌≢◌, List, some, String, ℤ, string_eq}
use uhcr.Network.Jobs.Status.{status_eq, JobManager, Result}
use uhcr.Prelude.{ok}
use uhcr.Network.Jobs.Methods.{get_job, queued_job}

-- What it is to accept a job with a time limit: the table then holds it under its identifier, and
-- every other entry as before.
abbrev pub Accepted : JobManager → List ℕ → ℤ → String → ℕ → Result (JobManager × String) → Type 0
Accepted m p limit k n out =
    (m' : JobManager) × (out ≡ ok (m', k))
    × (get_job m' k ≡ some (queued_job p limit k n))
    × ((j : String) → j ≢ k → get_job m' j ≡ get_job m j)
