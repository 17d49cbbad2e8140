-- ===== src/Network/Jobs/Status.antt =====
-- The states of a job and the table of their transitions (uhcr/network/jobs.py).
use uhcr.Prelude.{
  ℕ, ◌≡◌, ◌↔◌, Bool, true, List, [], ◌∷◌, Option, String, ℤ, arith, Eq, nat_beq, contains, Outcome,
}

pub data JobStatus : Type 0 where
  queued running completed failed timeout : JobStatus

abbrev pub code : JobStatus → ℕ
code queued = 0
code running = 1
code completed = 2
code failed = 3
code timeout = 4

pub code_injective : (a b : JobStatus) → code a ≡ code b → a ≡ b
code_injective a b h = ground arith

pub status_beq_iff : (a b : JobStatus) → (nat_beq (code a) (code b) ≡ true) ↔ (a ≡ b)
status_beq_iff a b = ground arith

instance abbrev pub status_eq : Eq JobStatus
status_eq = record { beq = λ a b. nat_beq (code a) (code b); beq_iff = status_beq_iff }

unfoldable pub valid_transitions : JobStatus → List JobStatus
valid_transitions queued = running ∷ []
valid_transitions running = completed ∷ failed ∷ timeout ∷ []
valid_transitions completed = []
valid_transitions failed = []
valid_transitions timeout = []

unfoldable pub terminal_states : List JobStatus
terminal_states = completed ∷ failed ∷ timeout ∷ []

unfoldable pub is_terminal : JobStatus → Bool
unfolding terminal_states
is_terminal s = contains s terminal_states

pub data JobError : Type 0 where
  key_error : String → JobError
  invalid_transition : String → JobStatus → JobStatus → JobError
  invalid_payload : JobError
  value_error : JobError

pub record Job : Type 0 where
  pub id : String
  pub status : JobStatus
  pub payload : List ℕ
  pub submitted_at : ℕ
  pub started_at : Option ℕ
  pub completed_at : Option ℕ
  pub result : Option (List ℕ)
  pub error : Option String
  pub timeout_seconds : ℤ
  pub worker_id : Option String

pub record JobManager : Type 0 where
  pub jobs : List (String × Job)
  pub default_timeout : ℤ

abbrev pub Result {ℓ} : Type ℓ → Type ℓ
Result A = Outcome JobError A
