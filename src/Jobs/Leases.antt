-- ===== src/Jobs/Leases.antt =====
-- apps/backend/repositories/jobs.py: what the holder of a lease does, the recovery of expired
-- leases, and cancellation.
use elegance_shawls.Base.{
  ℕ, ◌+◌, String, Bool, true, false, not, ◌&&◌, ◌||◌, Option, none, some, ltb, leb, if◌then◌else◌,
  select, length, str_eq, update_where, map,
}
use elegance_shawls.Jobs.Row.{
  JobStatus, RunResult, IngestionJob, Jobs, JobSettings, is_claimable, is_running, clip, backoff,
}

-- The caller still holds the lease of the running job.
abbrev pub is_owned : String → IngestionJob → Bool
is_owned worker_id j =
    is_running j.status && elim j.lease_owner [ none ↦ false | some w ↦ str_eq w worker_id ]

abbrev pub renewed : JobSettings → ℕ → IngestionJob → IngestionJob
renewed settings now j = record j {
  heartbeat_at = some now;
  updated_at = now;
  lease_expires_at = some (now + settings.job_lease_seconds);
}

unfoldable pub heartbeat : JobSettings → ℕ → String → ℕ → Jobs → Jobs × Option IngestionJob
heartbeat settings job_id worker_id now jobs =
    update_where (λ j. j.id) job_id (is_owned worker_id) (renewed settings now) jobs

-- `_cancel`
abbrev pub cancelled_job : ℕ → IngestionJob → IngestionJob
cancelled_job now j = record j {
  status = JobStatus.cancelled;
  lease_owner = none;
  lease_expires_at = none;
  finished_at = some now;
  updated_at = now;
}

abbrev pub completed : RunResult → ℕ → IngestionJob → IngestionJob
completed result now j = if j.cancel_requested then cancelled_job now j else record j {
  status = JobStatus.succeeded;
  result = some result;
  last_error = none;
  lease_owner = none;
  lease_expires_at = none;
  finished_at = some now;
  updated_at = now;
}

unfoldable pub complete_job : ℕ → String → RunResult → ℕ → Jobs → Jobs × Option IngestionJob
complete_job job_id worker_id result now jobs =
    update_where (λ j. j.id) job_id (is_owned worker_id) (completed result now) jobs

-- The last assignments of `fail_job`: retry after a backoff, or fail.
abbrev pub failed_job : JobSettings → String → Bool → ℕ → IngestionJob → IngestionJob
failed_job settings error retryable now j =
    if j.cancel_requested
    then cancelled_job now j
    else if retryable && ltb j.attempts j.max_attempts
    then record j {
      status = JobStatus.retrying;
      available_at = now + backoff settings j.attempts;
      lease_owner = none;
      lease_expires_at = none;
      last_error = some (clip error);
      last_error_retryable = some retryable;
      updated_at = now;
    }
    else record j {
      status = JobStatus.failed;
      finished_at = some now;
      lease_owner = none;
      lease_expires_at = none;
      last_error = some (clip error);
      last_error_retryable = some retryable;
      updated_at = now;
    }

unfoldable pub fail_job :
    JobSettings → ℕ → String → String → Bool → ℕ → Jobs → Jobs × Option IngestionJob
fail_job settings job_id worker_id error retryable now jobs =
    update_where (λ j. j.id) job_id (is_owned worker_id) (failed_job settings error retryable now)
      jobs

abbrev pub is_expired : ℕ → (ℕ → Bool) → IngestionJob → Bool
is_expired now locked j =
    is_running j.status
    && elim j.lease_expires_at [ none ↦ false | some t ↦ ltb t now ]
    && not (locked j.id)

abbrev pub recovered : JobSettings → ℕ → IngestionJob → IngestionJob
recovered settings now j =
    if j.cancel_requested
    then record j {
      status = JobStatus.cancelled;
      finished_at = some now;
      lease_owner = none;
      lease_expires_at = none;
      updated_at = now;
    }
    else if leb j.max_attempts j.attempts
    then record j {
      status = JobStatus.failed;
      finished_at = some now;
      last_error = some "Lease expired after final attempt";
      lease_owner = none;
      lease_expires_at = none;
      updated_at = now;
    }
    else record j {
      status = JobStatus.retrying;
      available_at = now + backoff settings j.attempts;
      last_error = some "Lease expired; worker presumed stopped";
      lease_owner = none;
      lease_expires_at = none;
      updated_at = now;
    }

unfoldable pub recover_expired_leases : JobSettings → ℕ → (ℕ → Bool) → Jobs → Jobs × ℕ
recover_expired_leases settings now locked jobs = (
  map (λ j. if is_expired now locked j then recovered settings now j else j) jobs,
  length (select (is_expired now locked) jobs),
)

abbrev pub cancel_marked : ℕ → IngestionJob → IngestionJob
cancel_marked now j =
    if is_claimable j.status
    then record j {
      status = JobStatus.cancelled;
      cancel_requested = true;
      finished_at = some now;
      updated_at = now;
    }
    else record j { cancel_requested = true; updated_at = now }

unfoldable pub cancel_job : ℕ → ℕ → Jobs → Jobs × Option IngestionJob
cancel_job job_id now jobs =
    update_where (λ j. j.id) job_id (λ j. is_claimable j.status || is_running j.status)
      (cancel_marked now) jobs
