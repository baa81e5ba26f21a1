-- ===== src/Jobs/Retries.antt =====
-- Retries with backoff and repeated submissions, over apps/backend/repositories/jobs.py.
use mathlib.Core.Path.{subst}
use elegance_shawls.Jobs.History.{failed_job-id}
use elegance_shawls.Jobs.Leases.{fail_job, failed_job, is_owned}
use elegance_shawls.Jobs.Queue.{
  create_job, find_key, idempotency_key_for, insert_job, is_due, new_job,
}
use elegance_shawls.Jobs.Row.{IngestionJob, JobSettings, JobStatus, Jobs, find_job, backoff, clip}
use elegance_shawls.Base.{
  ◌*◌, ◌+◌, ◌++◌, ◌-◌, ◌<◌, Bool, List, Option, Option-cases, String, [], ◌^◌, arith, eq_refl,
  false, find-update_where_self, inl, inr, leb, none, refl, some, true, update_where_hit, ℕ, ◌∷◌,
  ◌≡◌, ap, Bool-cases, update_where_miss, ◌≤◌, ◌⊎◌,
}

backoff_lem :
    (settings : JobSettings) (n : ℕ)
    → backoff settings n ≡ settings.job_backoff_seconds * 2 ^ (n - 1)
unfolding backoff
backoff_lem settings n = ap (λ (k : ℕ). settings.job_backoff_seconds * 2 ^ k) (omega arith)

-- What a failure makes of a job that its worker holds.
pub record Failed (settings : JobSettings) (error : String) (retryable : Bool) (now : ℕ)
    (j j' : IngestionJob) : Type 0 where
  pub attempts : j'.attempts ≡ j.attempts
  pub freed : j'.lease_owner ≡ none
  pub lease_over : j'.lease_expires_at ≡ none
  pub withdrawn :
      j.cancel_requested ≡ true
      → (j'.status ≡ JobStatus.cancelled)
        × (j'.finished_at ≡ some now)
        × (j'.last_error ≡ j.last_error)
  pub reported :
      j.cancel_requested ≡ false
      → (j'.last_error ≡ some (clip error)) × (j'.last_error_retryable ≡ some retryable)
  pub retried :
      j.cancel_requested ≡ false
      → retryable ≡ true
      → j.attempts < j.max_attempts
      → (j'.status ≡ JobStatus.retrying)
        × ((later : ℕ)
            → is_due later none (λ k. false) j'
              ≡ leb (now + settings.job_backoff_seconds * 2 ^ (j.attempts - 1)) later)
  pub final :
      j.cancel_requested ≡ false
      → (retryable ≡ false) ⊎ (j.max_attempts ≤ j.attempts)
      → (j'.status ≡ JobStatus.failed) × (j'.finished_at ≡ some now)

failed_job-Failed :
    (settings : JobSettings) (error : String) (retryable : Bool) (now : ℕ) (j : IngestionJob)
    → Failed settings error retryable now j (failed_job settings error retryable now j)
failed_job-Failed settings error retryable now j = record {
  attempts = ground arith;
  freed = ground arith;
  lease_over = ground arith;
  withdrawn = λ c. ground arith;
  reported = λ c. ground arith;
  retried = λ c r a. (ground arith, λ later. ground (arith, backoff_lem settings j.attempts));
  final = λ c e. ground arith;
}

-- A worker's report that a job failed: where the worker does not hold the running job, it changes
-- nothing and returns none. Where it does, the row is stored and returned without a lease and with its
-- attempts: cancelled where a cancellation was requested; else retrying where the error is retryable
-- and attempts are left, and claimable from the end of its backoff on and not before, which is the
-- configured one times 2 ^ (attempts - 1); else failed; and but for a cancelled job the error is stored.
pub fail_job-Failed :
    (settings : JobSettings) (i : ℕ) (w error : String) (retryable : Bool) (now : ℕ) (jobs : Jobs)
    {j : IngestionJob}
    → find_job i jobs ≡ some j
    → ((is_owned w j ≡ false) × (fail_job settings i w error retryable now jobs ≡ (jobs, none)))
      ⊎ ((is_owned w j ≡ true)
          × (j' : IngestionJob) × (find_job i (fail_job settings i w error retryable now jobs).0
              ≡ some j')
          × ((fail_job settings i w error retryable now jobs).1 ≡ some j')
          × Failed settings error retryable now j j')
unfolding fail_job
fail_job-Failed settings i w error retryable now jobs {j} e =
    let f = failed_job settings error retryable now in
    elim (Bool-cases (is_owned w j)) [
      | inr o ↦ inl (o, update_where_miss (λ r. r.id) i (is_owned w) f jobs e o)
      | inl o ↦ inr (
        o,
        f j,
        find-update_where_self (λ r. r.id) i (is_owned w) f jobs
            (failed_job-id settings error retryable now) e o,
        ap (λ (x : Jobs × Option IngestionJob). x.1)
            (update_where_hit (λ r. r.id) i (is_owned w) f jobs e o),
        failed_job-Failed settings error retryable now j,
      )
    ]

find_key_append :
    (job : IngestionJob) (jobs : Jobs)
    → find_key job.idempotency_key jobs ≡ none
    → find_key job.idempotency_key (jobs ++ job ∷ []) ≡ some job
unfolding find_key
find_key_append job [] e = rw (eq_refl job.idempotency_key) refl
find_key_append job (k ∷ jobs) e = ground (arith, find_key_append job jobs)

insert_job_new :
    (job : IngestionJob) (jobs : Jobs)
    → find_key job.idempotency_key jobs ≡ none
    → insert_job job jobs ≡ (jobs ++ job ∷ [], job, true)
unfolding insert_job
insert_job_new job jobs p = rw (p, insert_job) refl

insert_job_known :
    (job : IngestionJob) (jobs : Jobs) {k : IngestionJob}
    → find_key job.idempotency_key jobs ≡ some k
    → insert_job job jobs ≡ (jobs, k, false)
unfolding insert_job
insert_job_known job jobs p = rw (p, insert_job) refl

insert_job_twice :
    (job other : IngestionJob) (jobs : Jobs)
    → job.idempotency_key ≡ other.idempotency_key
    → insert_job other (insert_job job jobs).0
      ≡ ((insert_job job jobs).0, (insert_job job jobs).1, false)
insert_job_twice job other jobs same = elim (Option-cases (find_key job.idempotency_key jobs)) [
  | inl p ↦ rw (insert_job_new job jobs p) (
      insert_job_known other (jobs ++ job ∷ [])
        (subst (λ k. find_key k (jobs ++ job ∷ []) ≡ some job) same (find_key_append job jobs p)))
  | inr (k, p) ↦
      rw (insert_job_known job jobs p)
        (insert_job_known other jobs (subst (λ t. find_key t jobs ≡ some k) same p))
]

-- Creating a job again for the same source and path, with any primary key, attempts and time,
-- changes nothing: it returns the job of the first call, and says that it was not created.
pub create_job_twice :
    (sha256 : String → String) (settings : JobSettings) (id₁ id₂ : ℕ) (source_id path : String)
    (attempts₁ attempts₂ : Option ℕ) (now₁ now₂ : ℕ) (jobs : Jobs)
    → create_job sha256 settings id₂ source_id path none attempts₂ now₂
        (create_job sha256 settings id₁ source_id path none attempts₁ now₁ jobs).0
      ≡ (
        (create_job sha256 settings id₁ source_id path none attempts₁ now₁ jobs).0,
        (create_job sha256 settings id₁ source_id path none attempts₁ now₁ jobs).1,
        false,
      )
unfolding create_job
create_job_twice sha256 settings id₁ id₂ source_id path attempts₁ attempts₂ now₁ now₂ jobs =
    insert_job_twice
      (new_job settings id₁ source_id path (idempotency_key_for sha256 source_id path) attempts₁
        now₁)
      (new_job settings id₂ source_id path (idempotency_key_for sha256 source_id path) attempts₂
        now₂)
      jobs refl
