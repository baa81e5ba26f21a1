-- ===== src/Refresh/Accounts.antt =====
-- apps/backend/ingestion/refresh.py: the counters of a run account for its jobs.
use mathlib.Core.Path.{subst}
use elegance_shawls.Refresh.Tally.{
  Counts, blank, count_status, sampled, tally, count_category, count_failure, count_one,
  count_outcome, error_text, is_succeeded, is_true,
}
use elegance_shawls.Base.{
  ◌+◌, All, Bool, String, [], arith, length, suc, text_length, ℕ, ◌∷◌, ◌≡◌, ◌≤◌, ◌&&◌, ◌<>◌,
  All-append, Bool-cases, Option, and_true, clip_text, false, inl, inr, is_text, length-append, ltb,
  ltb→lt, none, not, some, text_length-clip_text-le, true, select, ◌||◌,
}
use elegance_shawls.Jobs.Row.{IngestionJob, JobStatus, Jobs, Outcome, RunResult}

-- The jobs that the counters stand for, and the outcomes of the succeeded ones.
abbrev pub accounted : Counts → ℕ
accounted c = c.succeeded + c.retryable_failures + c.non_retryable_failures + c.unprocessed_jobs

abbrev pub outcomes : Counts → ℕ
outcomes c = c.created + c.unchanged + c.updated + c.source_changed

-- The counters are consistent after so many jobs.
abbrev pub IsConsistent : ℕ → Counts → Type 0
IsConsistent n c =
    (accounted c ≡ n)
    × (outcomes c ≤ c.succeeded)
    × (c.skipped_category ≤ c.retryable_failures + c.non_retryable_failures)
    × (length c.error_samples ≤ 5)
    × All (λ t. text_length t ≤ 200) c.error_samples

-- A succeeded job that is counted has an outcome at most.
count_one-IsConsistent :
    (o : Outcome) (n : ℕ) (c : Counts)
    → IsConsistent n c
    → IsConsistent (suc n) (count_one o (record c { succeeded = c.succeeded + 1 }))
count_one-IsConsistent Outcome.created n c (a, b, d, e, f) =
    (omega (arith, a), omega (arith, b), d, e, f)
count_one-IsConsistent Outcome.unchanged n c (a, b, d, e, f) =
    (omega (arith, a), omega (arith, b), d, e, f)
count_one-IsConsistent Outcome.updated n c (a, b, d, e, f) =
    (omega (arith, a), omega (arith, b), d, e, f)
count_one-IsConsistent Outcome.source_changed n c (a, b, d, e, f) =
    (omega (arith, a), omega (arith, b), d, e, f)

count_outcome-IsConsistent :
    (r : Option RunResult) (n : ℕ) (c : Counts)
    → IsConsistent n c
    → IsConsistent (suc n) (count_outcome r (record c { succeeded = c.succeeded + 1 }))
count_outcome-IsConsistent none n c (a, b, d, e, f) = (omega (arith, a), omega (arith, b), d, e, f)
count_outcome-IsConsistent (some r) n c h = count_one-IsConsistent r.outcome n c h

count_failed-IsConsistent :
    (refused retryable : Bool) (n : ℕ) (c : Counts)
    → IsConsistent n c
    → IsConsistent (suc n) (count_category refused (count_failure retryable c))
count_failed-IsConsistent true true n c (a, b, d, e, f) =
    (omega (arith, a), b, omega (arith, d), e, f)
count_failed-IsConsistent true false n c (a, b, d, e, f) =
    (omega (arith, a), b, omega (arith, d), e, f)
count_failed-IsConsistent false true n c (a, b, d, e, f) =
    (omega (arith, a), b, omega (arith, d), e, f)
count_failed-IsConsistent false false n c (a, b, d, e, f) =
    (omega (arith, a), b, omega (arith, d), e, f)

module _ (starts_with : String → Bool) (redact : String → String) where
  count_status-IsConsistent :
      (s : JobStatus) (j : IngestionJob) (n : ℕ) (c : Counts)
      → IsConsistent n c
      → IsConsistent (suc n) (count_status starts_with redact s j c)
  count_status-IsConsistent JobStatus.succeeded j n c h = count_outcome-IsConsistent j.result n c h
  count_status-IsConsistent JobStatus.failed j n c h =
      count_failed-IsConsistent (starts_with (error_text j.last_error))
        (is_true j.last_error_retryable) n c h
  count_status-IsConsistent JobStatus.retrying j n c (a, b, d, e, f) =
      (omega (arith, a), b, omega (arith, d), e, f)
  count_status-IsConsistent JobStatus.queued j n c (a, b, d, e, f) = (omega (arith, a), b, d, e, f)
  count_status-IsConsistent JobStatus.running j n c (a, b, d, e, f) = (omega (arith, a), b, d, e, f)
  count_status-IsConsistent JobStatus.cancelled j n c (a, b, d, e, f) =
      (omega (arith, a), b, d, e, f)

  sampled-IsConsistent :
      (j : IngestionJob) (n : ℕ) (c : Counts)
      → IsConsistent n c
      → IsConsistent n (sampled starts_with redact j c)
  unfolding sampled
  sampled-IsConsistent j n c (a, b, d, e, f) =
      let sample = clip_text 200 (redact (j.path <> ": " <> error_text j.last_error)) in
      elim (Bool-cases (
        not (is_succeeded starts_with redact j.status)
        && is_text (error_text j.last_error)
        && ltb (length c.error_samples) 5)) [
          | inr q ↦ rw q (a, b, d, e, f)
          | inl q ↦ rw q (
            a,
            b,
            d,
            omega (
              arith,
              length-append c.error_samples (sample ∷ []),
              ltb→lt (length c.error_samples) 5
                  (and_true
                    (not (is_succeeded starts_with redact j.status)
                      && is_text (error_text j.last_error))
                    (ltb (length c.error_samples) 5) q).1,
            ),
            All-append (λ t. text_length t ≤ 200) c.error_samples (sample ∷ []) f
                (
                  text_length-clip_text-le 200 (redact (j.path <> ": " <> error_text j.last_error)),
                  tt,
                ),
          )
        ]

  tally-from :
      (jobs : Jobs) (n : ℕ) (c : Counts)
      → IsConsistent n c
      → IsConsistent (n + length jobs) (tally starts_with redact jobs c)
  unfolding tally
  tally-from [] n c h = subst (λ k. IsConsistent k c) (omega arith) h
  tally-from (j ∷ jobs) n c h =
      subst (λ k. IsConsistent k (tally starts_with redact (j ∷ jobs) c)) (omega arith)
        (tally-from jobs (suc n) _
          (sampled-IsConsistent j (suc n) _ (count_status-IsConsistent j.status j n c h)))

-- How many jobs pass a test.
abbrev pub number : (IngestionJob → Bool) → Jobs → ℕ
number test jobs = length (select test jobs)

abbrev pub has_status : JobStatus → JobStatus → Bool
has_status JobStatus.succeeded JobStatus.succeeded = true
has_status JobStatus.failed JobStatus.failed = true
has_status JobStatus.retrying JobStatus.retrying = true
has_status _ _ = false

abbrev pub has_outcome : Outcome → Outcome → Bool
has_outcome Outcome.created Outcome.created = true
has_outcome Outcome.unchanged Outcome.unchanged = true
has_outcome Outcome.updated Outcome.updated = true
has_outcome Outcome.source_changed Outcome.source_changed = true
has_outcome _ _ = false

abbrev pub ended_with : Outcome → IngestionJob → Bool
ended_with o j =
    has_status JobStatus.succeeded j.status
    && elim j.result [ none ↦ false | some r ↦ has_outcome o r.outcome ]

abbrev pub may_retry : IngestionJob → Bool
may_retry j =
    has_status JobStatus.retrying j.status
    || has_status JobStatus.failed j.status && is_true j.last_error_retryable

abbrev pub failed_for_good : IngestionJob → Bool
failed_for_good j = has_status JobStatus.failed j.status && not (is_true j.last_error_retryable)

abbrev pub is_unprocessed : IngestionJob → Bool
is_unprocessed j = not (
    has_status JobStatus.succeeded j.status
    || has_status JobStatus.failed j.status
    || has_status JobStatus.retrying j.status)

module _ (starts_with : String → Bool) (redact : String → String) where
  -- Each counter of `c'` is that of `c` and the number of the jobs that it is for.
  pub record Counted (jobs : Jobs) (c c' : Counts) : Type 0 where
    pub succeeded :
        c'.succeeded ≡ c.succeeded + number (λ j. has_status JobStatus.succeeded j.status) jobs
    pub created : c'.created ≡ c.created + number (ended_with Outcome.created) jobs
    pub unchanged : c'.unchanged ≡ c.unchanged + number (ended_with Outcome.unchanged) jobs
    pub updated : c'.updated ≡ c.updated + number (ended_with Outcome.updated) jobs
    pub source_changed :
        c'.source_changed ≡ c.source_changed + number (ended_with Outcome.source_changed) jobs
    pub retryable : c'.retryable_failures ≡ c.retryable_failures + number may_retry jobs
    pub for_good :
        c'.non_retryable_failures ≡ c.non_retryable_failures + number failed_for_good jobs
    pub unprocessed : c'.unprocessed_jobs ≡ c.unprocessed_jobs + number is_unprocessed jobs
    pub refused :
        c'.skipped_category
        ≡ c.skipped_category
          + number
              (λ j. has_status JobStatus.failed j.status && starts_with (error_text j.last_error))
              jobs

  one-Counted :
      (j : IngestionJob) (c : Counts)
      → Counted
          (j ∷ [])
          c
          (sampled starts_with redact j (count_status starts_with redact j.status j c))
  unfolding sampled
  one-Counted j c = record {
    succeeded = ground arith;
    created = ground arith;
    unchanged = ground arith;
    updated = ground arith;
    source_changed = ground arith;
    retryable = ground arith;
    for_good = ground arith;
    unprocessed = ground arith;
    refused = ground arith;
  }

  number-cons :
      (test : IngestionJob → Bool) (j : IngestionJob) (jobs : Jobs)
      → number test (j ∷ jobs) ≡ number test (j ∷ []) + number test jobs
  number-cons test j jobs = elim (Bool-cases (test j)) [
    | inl p ↦ rw p (omega arith)
    | inr p ↦ rw p (omega arith)
  ]

  Counted-cons :
      (j : IngestionJob) (jobs : Jobs) (c d e : Counts)
      → Counted (j ∷ []) c d
      → Counted jobs d e
      → Counted (j ∷ jobs) c e
  Counted-cons j jobs c d e h k = record {
    succeeded = omega (
      arith,
      h.succeeded,
      k.succeeded,
      number-cons (λ j. has_status JobStatus.succeeded j.status) j jobs,
    );
    created = omega (arith, h.created, k.created, number-cons (ended_with Outcome.created) j jobs);
    unchanged =
        omega (arith, h.unchanged, k.unchanged, number-cons (ended_with Outcome.unchanged) j jobs);
    updated = omega (arith, h.updated, k.updated, number-cons (ended_with Outcome.updated) j jobs);
    source_changed = omega (
      arith,
      h.source_changed,
      k.source_changed,
      number-cons (ended_with Outcome.source_changed) j jobs,
    );
    retryable = omega (arith, h.retryable, k.retryable, number-cons may_retry j jobs);
    for_good = omega (arith, h.for_good, k.for_good, number-cons failed_for_good j jobs);
    unprocessed = omega (arith, h.unprocessed, k.unprocessed, number-cons is_unprocessed j jobs);
    refused = omega (
      arith,
      h.refused,
      k.refused,
      number-cons
          (λ j. has_status JobStatus.failed j.status && starts_with (error_text j.last_error)) j
          jobs,
    );
  }

  tally-Counted : (jobs : Jobs) (c : Counts) → Counted jobs c (tally starts_with redact jobs c)
  unfolding tally
  tally-Counted [] c = record {
    succeeded = omega arith;
    created = omega arith;
    unchanged = omega arith;
    updated = omega arith;
    source_changed = omega arith;
    retryable = omega arith;
    for_good = omega arith;
    unprocessed = omega arith;
    refused = omega arith;
  }
  tally-Counted (j ∷ jobs) c =
      let d = sampled starts_with redact j (count_status starts_with redact j.status j c) in
      Counted-cons j jobs c d _ (one-Counted j c) (tally-Counted jobs d)

-- After the tally of a run: the succeeded jobs, those of each outcome, the failures with a retry (the
-- job is retrying, or failed with a retryable error) and without one, the other jobs and the failures of
-- a refused category are each as many as its counter says; every job is counted once; and there are at
-- most 5 samples of errors, each of at most 200 characters.
pub tally-IsConsistent :
    (starts_with : String → Bool) (redact : String → String) (jobs : Jobs)
    → Counted starts_with redact jobs blank (tally starts_with redact jobs blank)
      × IsConsistent (length jobs) (tally starts_with redact jobs blank)
tally-IsConsistent starts_with redact jobs = (
  tally-Counted starts_with redact jobs blank,
  subst (λ k. IsConsistent k (tally starts_with redact jobs blank)) (omega arith)
      (tally-from starts_with redact jobs 0 blank
        (omega arith, omega arith, omega arith, omega arith, tt)),
)
