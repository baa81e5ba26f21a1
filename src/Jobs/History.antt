-- ===== src/Jobs/History.antt =====
-- Any sequence of operations of apps/backend/repositories/jobs.py, by any workers and at any times:
-- one value of `Op` for each call, with its arguments.
use elegance_shawls.Jobs.Claiming.{claim_next-Distinct}
use elegance_shawls.Jobs.Validity.{
  IsValidTable, create_job-IsValid, requeue_job-IsValid, claim_next-IsValid, cancel_job-IsValid,
  complete_job-IsValid, fail_job-IsValid, heartbeat-IsValid, recover_expired_leases-IsValid,
}
use elegance_shawls.Jobs.Leases.{
  failed_job, completed, cancel_marked, is_expired, heartbeat, complete_job, recovered, fail_job,
  recover_expired_leases, cancel_job, renewed,
}
use elegance_shawls.Jobs.Queue.{create_job, insert_job, requeue_job, claim_next, find_key, requeued}
use elegance_shawls.Jobs.Row.{Jobs, find_job, JobSettings, RunResult, IngestionJob}
use elegance_shawls.Base.{
  ℕ, String, Option, List, ◌≡◌, [], Bool, ◌<◌, none, if◌then◌else◌, Distinct, arith, Option-cases,
  Distinct-append, Distinct-map, Distinct-update_where, inl, inr, refl,
}

pub data Op : Type 0 where
  create : ℕ → String → String → Option String → Option ℕ → ℕ → Op
  requeue : ℕ → ℕ → Op
  claim : String → ℕ → Option (List ℕ) → (ℕ → Bool) → Op
  beat : ℕ → String → ℕ → Op
  complete : ℕ → String → RunResult → ℕ → Op
  fail : ℕ → String → String → Bool → ℕ → Op
  recover : ℕ → (ℕ → Bool) → Op
  cancel : ℕ → ℕ → Op

-- The database draws a primary key that no row has.
abbrev pub IsFresh : Op → Jobs → Type 0
IsFresh (create new_id _ _ _ _ _) jobs = find_job new_id jobs ≡ none
IsFresh _ jobs = Unit {0}

pub failed_job-id :
    (settings : JobSettings) (error : String) (retryable : Bool) (now : ℕ) (j : IngestionJob)
    → (failed_job settings error retryable now j).id ≡ j.id
failed_job-id settings error retryable now j = ground arith

pub completed-id :
    (result : RunResult) (now : ℕ) (j : IngestionJob) → (completed result now j).id ≡ j.id
completed-id result now j = ground arith

pub cancel_marked-id : (now : ℕ) (j : IngestionJob) → (cancel_marked now j).id ≡ j.id
cancel_marked-id now j = ground arith

pub recovered_or_same-id :
    (settings : JobSettings) (now : ℕ) (locked : ℕ → Bool) (j : IngestionJob)
    → (if is_expired now locked j then recovered settings now j else j).id ≡ j.id
recovered_or_same-id settings now locked j = ground arith

module _ (sha256 : String → String) (settings : JobSettings) where
  unfoldable pub apply : Op → Jobs → Jobs
  apply (create new_id source_id path key max_attempts now) jobs =
      (create_job sha256 settings new_id source_id path key max_attempts now jobs).0
  apply (requeue job_id now) jobs = (requeue_job job_id now jobs).0
  apply (claim worker_id now only_ids locked) jobs =
      (claim_next settings worker_id now only_ids locked jobs).0
  apply (beat job_id worker_id now) jobs = (heartbeat settings job_id worker_id now jobs).0
  apply (complete job_id worker_id result now) jobs =
      (complete_job job_id worker_id result now jobs).0
  apply (fail job_id worker_id error retryable now) jobs =
      (fail_job settings job_id worker_id error retryable now jobs).0
  apply (recover now locked) jobs = (recover_expired_leases settings now locked jobs).0
  apply (cancel job_id now) jobs = (cancel_job job_id now jobs).0

  -- The tables that operations lead to from the empty one.
  pub data Reach : Jobs → Type 0 where
    start : Reach []
    next : {jobs : Jobs} (op : Op) → Reach jobs → IsFresh op jobs → Reach (apply op jobs)

  insert_job-Distinct :
      (job : IngestionJob) (jobs : Jobs)
      → find_job job.id jobs ≡ none
      → Distinct (λ j. j.id) jobs
      → Distinct (λ j. j.id) (insert_job job jobs).0
  unfolding insert_job
  insert_job-Distinct job jobs fresh d = elim (Option-cases (find_key job.idempotency_key jobs)) [
    | inl p ↦ rw (p, insert_job) (Distinct-append (λ j. j.id) job jobs d fresh)
    | inr (k, p) ↦ rw (p, insert_job) d
  ]

  pub apply-Distinct :
      (op : Op) (jobs : Jobs)
      → IsFresh op jobs
      → Distinct (λ j. j.id) jobs
      → Distinct (λ j. j.id) (apply op jobs)
  unfolding apply create_job requeue_job heartbeat complete_job fail_job recover_expired_leases
      cancel_job
  apply-Distinct (create new_id source_id path key max_attempts now) jobs fresh d =
      insert_job-Distinct _ jobs fresh d
  apply-Distinct (requeue job_id now) jobs fresh d =
      Distinct-update_where (λ j. j.id) job_id _ (requeued now) jobs (λ r. refl) d
  apply-Distinct (claim worker_id now only_ids locked) jobs fresh d =
      claim_next-Distinct settings worker_id now only_ids locked jobs d
  apply-Distinct (beat job_id worker_id now) jobs fresh d =
      Distinct-update_where (λ j. j.id) job_id _ (renewed settings now) jobs (λ r. refl) d
  apply-Distinct (complete job_id worker_id result now) jobs fresh d =
      Distinct-update_where (λ j. j.id) job_id _ (completed result now) jobs
        (completed-id result now) d
  apply-Distinct (fail job_id worker_id error retryable now) jobs fresh d =
      Distinct-update_where (λ j. j.id) job_id _ (failed_job settings error retryable now) jobs
        (failed_job-id settings error retryable now) d
  apply-Distinct (recover now locked) jobs fresh d =
      Distinct-map (λ j. j.id) _ jobs (recovered_or_same-id settings now locked) d
  apply-Distinct (cancel job_id now) jobs fresh d =
      Distinct-update_where (λ j. j.id) job_id _ (cancel_marked now) jobs (cancel_marked-id now) d

  pub apply-IsValid :
      (op : Op) (jobs : Jobs)
      → 0 < settings.job_max_attempts
      → Distinct (λ j. j.id) jobs
      → IsValidTable jobs
      → IsValidTable (apply op jobs)
  unfolding apply
  apply-IsValid (create new_id source_id path key max_attempts now) jobs h d v =
      create_job-IsValid sha256 settings new_id source_id path key max_attempts now jobs h v
  apply-IsValid (requeue job_id now) jobs h d v = requeue_job-IsValid job_id now jobs v
  apply-IsValid (claim worker_id now only_ids locked) jobs h d v =
      claim_next-IsValid settings worker_id now only_ids locked jobs d v
  apply-IsValid (beat job_id worker_id now) jobs h d v =
      heartbeat-IsValid settings job_id worker_id now jobs v
  apply-IsValid (complete job_id worker_id result now) jobs h d v =
      complete_job-IsValid job_id worker_id result now jobs v
  apply-IsValid (fail job_id worker_id error retryable now) jobs h d v =
      fail_job-IsValid settings job_id worker_id error retryable now jobs v
  apply-IsValid (recover now locked) jobs h d v =
      recover_expired_leases-IsValid settings now locked jobs v
  apply-IsValid (cancel job_id now) jobs h d v = cancel_job-IsValid job_id now jobs v

  -- Whatever operations ran, by whatever workers and in whatever order, if at least one attempt is
  -- configured: the primary keys are distinct, and in every row the attempts are at most the maximum
  -- and below it while the job can be claimed, a claimable job has no pending cancellation, exactly
  -- the running jobs have an owner and a lease, and exactly the finished ones an end time.
  pub Reach-IsValid :
      {jobs : Jobs}
      → 0 < settings.job_max_attempts
      → Reach jobs
      → Distinct (λ j. j.id) jobs × IsValidTable jobs
  Reach-IsValid h start = (tt, tt)
  Reach-IsValid h (next {jobs} op r fresh) =
      let v = Reach-IsValid h r in
      (apply-Distinct op jobs fresh v.0, apply-IsValid op jobs h v.0 v.1)
