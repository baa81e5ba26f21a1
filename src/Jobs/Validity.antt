-- ===== src/Jobs/Validity.antt =====
-- The well-formedness of ingestion jobs, which every operation of
-- apps/backend/repositories/jobs.py keeps. It implies the table's CHECK constraints
-- `attempts_bounded` and `lease_present_while_running`, so no statement of these operations trips one.

use elegance_shawls.Base.{
  ℕ, ◌≤◌, ◌<◌, String, ◌≡◌, refl, Bool, true, false, Option, List, [], ◌∷◌, arith, is_some, All,
  All-append, All-update_where, All-lookup, All-replace, inl, inr, Option-cases, Bool-cases,
  Distinct, select,
}
use elegance_shawls.Jobs.Row.{
  RunResult, IngestionJob, Jobs, JobSettings, is_claimable, is_finished, is_running,
}
use elegance_shawls.Jobs.Queue.{
  create_job, new_job, insert_job, find_key, or_count, requeued, requeue_job, is_due, claimed,
  claim_next, first_due,
}
use elegance_shawls.Jobs.Leases.{
  is_owned, renewed, heartbeat, completed, complete_job, failed_job, fail_job, is_expired,
  recovered, recover_expired_leases, cancel_marked, cancel_job,
}
use elegance_shawls.Jobs.Claiming.{claim_next_picks, claim_next_unchanged}

pub record IsValid (j : IngestionJob) : Type 0 where
  pub positive : 0 < j.max_attempts
  pub bounded : j.attempts ≤ j.max_attempts
  pub attempt_left : is_claimable j.status ≡ true → j.attempts < j.max_attempts
  pub not_cancelled : is_claimable j.status ≡ true → j.cancel_requested ≡ false
  pub owner : is_some j.lease_owner ≡ is_running j.status
  pub lease : is_some j.lease_expires_at ≡ is_running j.status
  pub ended : is_some j.finished_at ≡ is_finished j.status

abbrev pub IsValidTable : Jobs → Type 0
IsValidTable = All IsValid

requeued-IsValid :
    (now : ℕ) (j : IngestionJob)
    → IsValid j
    → is_finished j.status ≡ true
    → IsValid (requeued now j)
requeued-IsValid now j v h = record {
  positive = v.positive;
  bounded = ground arith;
  attempt_left = λ _. v.positive;
  not_cancelled = λ _. refl;
  owner = refl;
  lease = refl;
  ended = refl;
}

claimed-IsValid :
    (settings : JobSettings) (w : String) (now : ℕ) (j : IngestionJob)
    → IsValid j
    → is_claimable j.status ≡ true
    → IsValid (claimed settings w now j)
claimed-IsValid settings w now j v h = ground (arith, v.attempt_left h, v.ended)

renewed-IsValid :
    (settings : JobSettings) (w : String) (now : ℕ) (j : IngestionJob)
    → IsValid j
    → is_owned w j ≡ true
    → IsValid (renewed settings now j)
renewed-IsValid settings w now j v h = ground arith

completed-IsValid :
    (result : RunResult) (w : String) (now : ℕ) (j : IngestionJob)
    → IsValid j
    → is_owned w j ≡ true
    → IsValid (completed result now j)
completed-IsValid result w now j v h = ground arith

failed_job-IsValid :
    (settings : JobSettings) (error w : String) (retryable : Bool) (now : ℕ) (j : IngestionJob)
    → IsValid j
    → is_owned w j ≡ true
    → IsValid (failed_job settings error retryable now j)
failed_job-IsValid settings error w retryable now j v h = ground arith

recovered-IsValid :
    (settings : JobSettings) (now : ℕ) (j : IngestionJob)
    → IsValid j
    → is_running j.status ≡ true
    → IsValid (recovered settings now j)
recovered-IsValid settings now j v h = ground arith

cancel_marked-IsValid : (now : ℕ) (j : IngestionJob) → IsValid j → IsValid (cancel_marked now j)
cancel_marked-IsValid now j v = ground arith

new_job-IsValid :
    (settings : JobSettings) (new_id : ℕ) (source_id path key : String) (max_attempts : Option ℕ)
    (now : ℕ)
    → 0 < settings.job_max_attempts
    → IsValid (new_job settings new_id source_id path key max_attempts now)
new_job-IsValid settings new_id source_id path key max_attempts now h =
    let pos : 0 < or_count max_attempts settings.job_max_attempts = ground arith in
    record {
      positive = pos;
      bounded = omega arith;
      attempt_left = λ _. pos;
      not_cancelled = λ _. refl;
      owner = refl;
      lease = refl;
      ended = refl;
    }

insert_job-IsValid :
    (job : IngestionJob) (jobs : Jobs)
    → IsValid job
    → IsValidTable jobs
    → IsValidTable (insert_job job jobs).0
unfolding insert_job
insert_job-IsValid job jobs j v = elim (Option-cases (find_key job.idempotency_key jobs)) [
  | inl p ↦ rw (p, insert_job) (All-append IsValid jobs (job ∷ []) v (j, tt))
  | inr (k, p) ↦ rw (p, insert_job) v
]

is_due-is_claimable :
    (now : ℕ) (only_ids : Option (List ℕ)) (locked : ℕ → Bool) (j : IngestionJob)
    → is_due now only_ids locked j ≡ true
    → is_claimable j.status ≡ true
is_due-is_claimable now only_ids locked j h = ground arith

is_expired-is_running :
    (now : ℕ) (locked : ℕ → Bool) (j : IngestionJob)
    → is_expired now locked j ≡ true
    → is_running j.status ≡ true
is_expired-is_running now locked j h = ground arith

-- A new job starts well-formed if the configured number of attempts is positive.
pub create_job-IsValid :
    (sha256 : String → String) (settings : JobSettings) (new_id : ℕ) (source_id path : String)
    (key : Option String) (max_attempts : Option ℕ) (now : ℕ) (jobs : Jobs)
    → 0 < settings.job_max_attempts
    → IsValidTable jobs
    → IsValidTable (create_job sha256 settings new_id source_id path key max_attempts now jobs).0
unfolding create_job
create_job-IsValid sha256 settings new_id source_id path key max_attempts now jobs h v =
    insert_job-IsValid _ jobs (new_job-IsValid settings new_id source_id path _ max_attempts now h)
      v

pub requeue_job-IsValid :
    (job_id now : ℕ) (jobs : Jobs)
    → IsValidTable jobs
    → IsValidTable (requeue_job job_id now jobs).0
unfolding requeue_job
requeue_job-IsValid job_id now jobs =
    All-update_where (λ j. j.id) IsValid job_id _ (requeued now) jobs (requeued-IsValid now)

pub claim_next-IsValid :
    (settings : JobSettings) (w : String) (now : ℕ) (only_ids : Option (List ℕ)) (locked : ℕ → Bool)
    (jobs : Jobs)
    → Distinct (λ j. j.id) jobs
    → IsValidTable jobs
    → IsValidTable (claim_next settings w now only_ids locked jobs).0
claim_next-IsValid settings w now only_ids locked jobs d v =
    elim (Option-cases (first_due (select (is_due now only_ids locked) jobs))) [
      | inl p ↦ rw (claim_next_unchanged settings w now only_ids locked jobs p) v
      | inr (j, p) ↦
          let r = claim_next_picks settings w now only_ids locked jobs p d in
          let ready : is_claimable j.status ≡ true =
            is_due-is_claimable now only_ids locked j r.1 in
          rw (r.0) (
            All-replace (λ k. k.id) IsValid j.id _ jobs v
              (claimed-IsValid settings w now j (All-lookup IsValid jobs v r.2) ready))
    ]

pub heartbeat-IsValid :
    (settings : JobSettings) (job_id : ℕ) (w : String) (now : ℕ) (jobs : Jobs)
    → IsValidTable jobs
    → IsValidTable (heartbeat settings job_id w now jobs).0
unfolding heartbeat
heartbeat-IsValid settings job_id w now jobs =
    All-update_where (λ j. j.id) IsValid job_id (is_owned w) (renewed settings now) jobs
      (renewed-IsValid settings w now)

pub complete_job-IsValid :
    (job_id : ℕ) (w : String) (result : RunResult) (now : ℕ) (jobs : Jobs)
    → IsValidTable jobs
    → IsValidTable (complete_job job_id w result now jobs).0
unfolding complete_job
complete_job-IsValid job_id w result now jobs =
    All-update_where (λ j. j.id) IsValid job_id (is_owned w) (completed result now) jobs
      (completed-IsValid result w now)

pub fail_job-IsValid :
    (settings : JobSettings) (job_id : ℕ) (w error : String) (retryable : Bool) (now : ℕ)
    (jobs : Jobs)
    → IsValidTable jobs
    → IsValidTable (fail_job settings job_id w error retryable now jobs).0
unfolding fail_job
fail_job-IsValid settings job_id w error retryable now jobs =
    All-update_where (λ j. j.id) IsValid job_id (is_owned w)
      (failed_job settings error retryable now) jobs
      (failed_job-IsValid settings error w retryable now)

pub recover_expired_leases-IsValid :
    (settings : JobSettings) (now : ℕ) (locked : ℕ → Bool) (jobs : Jobs)
    → IsValidTable jobs
    → IsValidTable (recover_expired_leases settings now locked jobs).0
unfolding recover_expired_leases
recover_expired_leases-IsValid settings now locked [] v = tt
recover_expired_leases-IsValid settings now locked (j ∷ jobs) v = (
  elim (Bool-cases (is_expired now locked j)) [
    | inl p ↦ rw p (recovered-IsValid settings now j v.0 (is_expired-is_running now locked j p))
    | inr p ↦ rw p v.0
  ],
  recover_expired_leases-IsValid settings now locked jobs v.1,
)

pub cancel_job-IsValid :
    (job_id now : ℕ) (jobs : Jobs) → IsValidTable jobs → IsValidTable (cancel_job job_id now jobs).0
unfolding cancel_job
cancel_job-IsValid job_id now jobs =
    All-update_where (λ j. j.id) IsValid job_id _ (cancel_marked now) jobs
      (λ j v _. cancel_marked-IsValid now j v)
