-- ===== src/Jobs/Row.antt =====
-- class IngestionJob of apps/backend/models/relational_model.py, and what the operations of
-- apps/backend/repositories/jobs.py share. Times are whole seconds.
use elegance_shawls.Base.{
  ℕ, ◌-◌, ◌*◌, ◌^◌, max, String, Bool, true, false, Option, List, clip_text, find,
}

pub data JobStatus : Type 0 where
  queued running succeeded retrying failed cancelled : JobStatus

pub data Outcome : Type 0 where
  created unchanged updated source_changed : Outcome

-- What `run_job` returns.
pub record RunResult : Type 0 where
  pub staged_product_id : ℕ
  pub outcome : Outcome

pub record IngestionJob : Type 0 where
  pub id : ℕ
  pub source_id : String
  pub path : String
  pub idempotency_key : String
  pub status : JobStatus
  pub attempts : ℕ
  pub max_attempts : ℕ
  pub available_at : ℕ
  pub lease_owner : Option String
  pub lease_expires_at : Option ℕ
  pub heartbeat_at : Option ℕ
  pub cancel_requested : Bool
  pub last_error : Option String
  pub last_error_retryable : Option Bool
  pub result : Option RunResult
  pub created_at : ℕ
  pub updated_at : ℕ
  pub started_at : Option ℕ
  pub finished_at : Option ℕ

abbrev pub Jobs : Type 0
Jobs = List IngestionJob

-- The settings that the repository reads.
pub record JobSettings : Type 0 where
  pub job_max_attempts : ℕ
  pub job_lease_seconds : ℕ
  pub job_backoff_seconds : ℕ

abbrev pub is_claimable : JobStatus → Bool
is_claimable JobStatus.queued = true
is_claimable JobStatus.retrying = true
is_claimable _ = false

abbrev pub is_finished : JobStatus → Bool
is_finished JobStatus.failed = true
is_finished JobStatus.cancelled = true
is_finished JobStatus.succeeded = true
is_finished _ = false

abbrev pub is_running : JobStatus → Bool
is_running JobStatus.running = true
is_running _ = false

abbrev pub max_error_length : ℕ
max_error_length = 500

unfoldable pub clip : String → String
clip message = clip_text max_error_length message

unfoldable pub backoff : JobSettings → ℕ → ℕ
backoff settings attempts = settings.job_backoff_seconds * 2 ^ max (attempts - 1) 0

abbrev pub find_job : ℕ → Jobs → Option IngestionJob
find_job = find (λ j. j.id)
