-- ===== src/Worker/Process.antt =====
-- `process_next_job` of apps/backend/ingestion/worker.py. What `run_job` returns or raises is an
-- argument, as is what other sessions commit while the job runs.
use elegance_shawls.Base.{Bool, List, Option, String, false, none, some, true, ℕ}
use elegance_shawls.Jobs.Row.{IngestionJob, JobSettings, Jobs, RunResult}
use elegance_shawls.Jobs.Queue.{claim_next}
use elegance_shawls.Jobs.Leases.{complete_job, fail_job, recover_expired_leases}

-- The result of `run_job`, or what it raises: a FetchError, an error of the source's data or of the
-- configuration, or any other Exception. What is none, as the cancellation of the task, is left out.
pub data Outcome : Type 0 where
  finished : (result : RunResult) → Outcome
  fetch_error : (error : String) → (retryable : Bool) → Outcome
  source_error : (error : String) → Outcome
  unexpected : Outcome

-- A worker's surroundings: the rows that other transactions hold locked, the jobs that it is limited
-- to, the clock at the recovery of leases, at the claim and after the run, and what other sessions commit during it.
pub record Round : Type 0 where
  pub settings : JobSettings
  pub worker_id : String
  pub only_ids : Option (List ℕ)
  pub locked : ℕ → Bool
  pub now : ℕ
  pub claimed_at : ℕ
  pub later : ℕ
  pub run : IngestionJob → Outcome
  pub others : Jobs → Jobs

module _ (w : Round) where
  -- The transaction at the end.
  unfoldable pub end_run : ℕ → Outcome → Jobs → Jobs × Option IngestionJob
  unfolding complete_job fail_job
  end_run id (Outcome.finished result) jobs = complete_job id w.worker_id result w.later jobs
  end_run id (Outcome.fetch_error error retryable) jobs =
      fail_job w.settings id w.worker_id error retryable w.later jobs
  end_run id (Outcome.source_error error) jobs =
      fail_job w.settings id w.worker_id error false w.later jobs
  end_run id Outcome.unexpected jobs =
      fail_job w.settings id w.worker_id "Unexpected internal error" true w.later jobs

  -- What follows the transaction of the claim.
  unfoldable pub after_claim : Jobs × Option IngestionJob → Jobs × Option IngestionJob
  unfolding end_run
  after_claim (jobs, none) = (jobs, none)
  after_claim (jobs, some job) = end_run job.id (w.run job) (w.others jobs)

  unfoldable pub process_next_job : Jobs → Jobs × Option IngestionJob
  unfolding after_claim claim_next recover_expired_leases
  process_next_job jobs =
      let recovered = (recover_expired_leases w.settings w.now w.locked jobs).0 in
      after_claim (claim_next w.settings w.worker_id w.claimed_at w.only_ids w.locked recovered)
