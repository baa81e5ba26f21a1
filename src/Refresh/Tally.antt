-- ===== src/Refresh/Tally.antt =====
-- `_tally` of apps/backend/ingestion/refresh.py: what became of the jobs of a run.
use elegance_shawls.Base.{
  ◌&&◌, ◌+◌, ◌++◌, ◌<>◌, Bool, List, Option, String, [], clip_text, if◌then◌else◌, false, is_text,
  length, ltb, none, not, some, true, ℕ, ◌∷◌,
}
use elegance_shawls.Jobs.Row.{IngestionJob, JobStatus, Jobs, Outcome, RunResult}

-- The counters that the tally writes, and the samples of errors.
pub record Counts : Type 0 where
  pub succeeded : ℕ
  pub created : ℕ
  pub unchanged : ℕ
  pub updated : ℕ
  pub source_changed : ℕ
  pub retryable_failures : ℕ
  pub non_retryable_failures : ℕ
  pub unprocessed_jobs : ℕ
  pub skipped_category : ℕ
  pub error_samples : List String

-- The counter of an outcome.
abbrev pub count_one : Outcome → Counts → Counts
count_one Outcome.created c = record c { created = c.created + 1 }
count_one Outcome.unchanged c = record c { unchanged = c.unchanged + 1 }
count_one Outcome.updated c = record c { updated = c.updated + 1 }
count_one Outcome.source_changed c = record c { source_changed = c.source_changed + 1 }

abbrev pub count_outcome : Option RunResult → Counts → Counts
count_outcome none c = c
count_outcome (some r) c = count_one r.outcome c

abbrev pub is_true : Option Bool → Bool
is_true none = false
is_true (some b) = b

abbrev pub count_failure : Bool → Counts → Counts
count_failure true c = record c { retryable_failures = c.retryable_failures + 1 }
count_failure false c = record c { non_retryable_failures = c.non_retryable_failures + 1 }

abbrev pub count_category : Bool → Counts → Counts
count_category true c = record c { skipped_category = c.skipped_category + 1 }
count_category false c = c

abbrev pub error_text : Option String → String
error_text none = ""
error_text (some error) = error

-- `starts_with` is `str.startswith` at "Category not allowed", and `redact` the redaction of secrets.
module _ (starts_with : String → Bool) (redact : String → String) where
  abbrev pub count_status : JobStatus → IngestionJob → Counts → Counts
  count_status JobStatus.succeeded j c =
      count_outcome j.result (record c { succeeded = c.succeeded + 1 })
  count_status JobStatus.failed j c =
      count_category (starts_with (error_text j.last_error))
        (count_failure (is_true j.last_error_retryable) c)
  count_status JobStatus.retrying j c = count_failure true c
  count_status _ j c = record c { unprocessed_jobs = c.unprocessed_jobs + 1 }

  abbrev pub is_succeeded : JobStatus → Bool
  is_succeeded JobStatus.succeeded = true
  is_succeeded _ = false

  -- The sample of a job that did not succeed and has an error, while there are fewer than 5.
  unfoldable pub sampled : IngestionJob → Counts → Counts
  sampled j c =
      if not (is_succeeded j.status)
        && is_text (error_text j.last_error)
        && ltb (length c.error_samples) 5
      then record c {
        error_samples =
            c.error_samples
            ++ clip_text 200 (redact (j.path <> ": " <> error_text j.last_error)) ∷ [];
      }
      else c

  unfoldable pub tally : Jobs → Counts → Counts
  unfolding sampled
  tally [] c = c
  tally (j ∷ jobs) c = tally jobs (sampled j (count_status j.status j c))

-- `_blank`
abbrev pub blank : Counts
blank = record {
  succeeded = 0;
  created = 0;
  unchanged = 0;
  updated = 0;
  source_changed = 0;
  retryable_failures = 0;
  non_retryable_failures = 0;
  unprocessed_jobs = 0;
  skipped_category = 0;
  error_samples = [];
}
