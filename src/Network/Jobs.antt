-- ===== src/Network/Jobs.antt =====
-- The job manager, uhcr/network/jobs.py: the state machine of a job and the methods of
-- `JobManager`. A method that raises leaves no change behind: each raise stands before the first
-- write, so a method is a function into `Result`. `uuid4()` and `now()` enter as arguments.
-- Seconds are integers of a unit that the caller chooses.
pub mod Status
pub mod Methods
pub mod Outcomes
pub mod Calls
pub mod Lifecycle
pub mod Submit
pub mod Invariant
