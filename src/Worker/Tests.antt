-- ===== src/Worker/Tests.antt =====
-- One round of a worker over a queued job.
use elegance_shawls.Jobs.Leases.{recover_expired_leases}
use elegance_shawls.Base.{[], false, find, none, refl, replace, true, update_where, ◌∷◌}
use elegance_shawls.Worker.Process.{Outcome, Round, process_next_job}
use elegance_shawls.Worker.Settled.{Ended, process_next_job-Ended}
use elegance_shawls.Jobs.Row.{IngestionJob, JobSettings}
use elegance_shawls.Jobs.Queue.{new_job, claimed, claim_next, first_due}

abbrev settings : JobSettings
settings = record { job_max_attempts = 3; job_lease_seconds = 60; job_backoff_seconds = 5 }

abbrev queued_job : IngestionJob
queued_job = new_job settings 1 "src" "/products/a" "k" none 10

abbrev round : Round
round = record {
  settings = settings;
  worker_id = "w";
  only_ids = none;
  locked = λ i. false;
  now = 20;
  claimed_at = 20;
  later = 30;
  run = λ j. Outcome.fetch_error "HTTP 503" true;
  others = λ jobs. jobs;
}

process_next_job-Ended_example :
    Ended
      (Outcome.fetch_error "HTTP 503" true)
      (claimed settings "w" 20 queued_job)
      (process_next_job round (queued_job ∷ []))
unfolding recover_expired_leases claim_next first_due find update_where replace
process_next_job-Ended_example =
    process_next_job-Ended round (queued_job ∷ []) (claimed settings "w" 20 queued_job) (refl, tt)
      refl refl
