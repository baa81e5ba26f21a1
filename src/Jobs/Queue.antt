-- ===== src/Jobs/Queue.antt =====
-- apps/backend/repositories/jobs.py: creating, requeuing and claiming jobs. Each function is one
-- statement, or one transaction under a row lock, so it is one step on the table. `now` is the
-- caller's clock. The row locks of other transactions (SKIP LOCKED) are the test `locked`.
use elegance_shawls.Base.{
  ℕ, ◌+◌, String, Bool, true, false, not, ◌&&◌, ◌||◌, Option, none, some, List, [], ◌∷◌, ◌++◌, ltb,
  leb, ◌==◌, if◌then◌else◌, select, any, str_eq, is_text, update_where, ◌<>◌,
}
use elegance_shawls.Jobs.Row.{JobStatus, IngestionJob, Jobs, JobSettings, is_claimable, is_finished}

-- `text or fallback`
abbrev pub or_text : Option String → String → String
or_text none fallback = fallback
or_text (some t) fallback = if is_text t then t else fallback

abbrev pub or_count : Option ℕ → ℕ → ℕ
or_count none fallback = fallback
or_count (some n) fallback = if n == 0 then fallback else n

unfoldable pub find_key : String → Jobs → Option IngestionJob
find_key k [] = none
find_key k (j ∷ jobs) = if str_eq j.idempotency_key k then some j else find_key k jobs

-- `hashlib.sha256(…).hexdigest()` is a parameter.
unfoldable pub idempotency_key_for : (String → String) → String → String → String
idempotency_key_for sha256 source_id path = sha256 (source_id <> ("\n" <> path))

-- The row that `create_job` inserts. `new_id` is the primary key that the database draws.
abbrev pub new_job : JobSettings → ℕ → String → String → String → Option ℕ → ℕ → IngestionJob
new_job settings new_id source_id path key max_attempts now = record {
  id = new_id;
  source_id = source_id;
  path = path;
  idempotency_key = key;
  status = JobStatus.queued;
  attempts = 0;
  max_attempts = or_count max_attempts settings.job_max_attempts;
  available_at = now;
  lease_owner = none;
  lease_expires_at = none;
  heartbeat_at = none;
  cancel_requested = false;
  last_error = none;
  last_error_retryable = none;
  result = none;
  created_at = now;
  updated_at = now;
  started_at = none;
  finished_at = none;
}

-- INSERT … ON CONFLICT (idempotency_key) DO NOTHING.
unfoldable pub insert_job : IngestionJob → Jobs → Jobs × IngestionJob × Bool
insert_job job jobs = elim (find_key job.idempotency_key jobs) [
  | none ↦ (jobs ++ job ∷ [], job, true)
  | some existing ↦ (jobs, existing, false)
]

-- The new row, or the existing one of the idempotency key.
unfoldable pub create_job :
    (String → String)
    → JobSettings
    → ℕ
    → String
    → String
    → Option String
    → Option ℕ
    → ℕ
    → Jobs
    → Jobs × IngestionJob × Bool
unfolding insert_job
create_job sha256 settings new_id source_id path idempotency_key max_attempts now jobs =
    let key = or_text idempotency_key (idempotency_key_for sha256 source_id path) in
    insert_job (new_job settings new_id source_id path key max_attempts now) jobs

abbrev pub requeued : ℕ → IngestionJob → IngestionJob
requeued now j = record j {
  status = JobStatus.queued;
  attempts = 0;
  available_at = now;
  lease_owner = none;
  lease_expires_at = none;
  cancel_requested = false;
  last_error = none;
  finished_at = none;
  updated_at = now;
}

unfoldable pub requeue_job : ℕ → ℕ → Jobs → Jobs × Option IngestionJob
requeue_job job_id now jobs =
    update_where (λ j. j.id) job_id (λ j. is_finished j.status) (requeued now) jobs

-- The order of the queue: available_at, then id.
abbrev pub earlier : IngestionJob → IngestionJob → Bool
earlier a b =
    ltb a.available_at b.available_at || (a.available_at == b.available_at && ltb a.id b.id)

-- ORDER BY available_at, id LIMIT 1
unfoldable pub first_due : Jobs → Option IngestionJob
first_due [] = none
first_due (j ∷ jobs) = elim (first_due jobs) [
  | none ↦ some j
  | some k ↦ some (if earlier k j then k else j)
]

abbrev pub in_batch : Option (List ℕ) → ℕ → Bool
in_batch none i = true
in_batch (some ids) i = any (λ k. k == i) ids

abbrev pub is_due : ℕ → Option (List ℕ) → (ℕ → Bool) → IngestionJob → Bool
is_due now only_ids locked j =
    is_claimable j.status
    && leb j.available_at now
    && not j.cancel_requested
    && in_batch only_ids j.id
    && not (locked j.id)

abbrev pub claimed : JobSettings → String → ℕ → IngestionJob → IngestionJob
claimed settings worker_id now j = record j {
  status = JobStatus.running;
  lease_owner = some worker_id;
  lease_expires_at = some (now + settings.job_lease_seconds);
  heartbeat_at = some now;
  started_at = some now;
  updated_at = now;
  attempts = j.attempts + 1;
}

unfoldable pub claim_next :
    JobSettings → String → ℕ → Option (List ℕ) → (ℕ → Bool) → Jobs → Jobs × Option IngestionJob
claim_next settings worker_id now only_ids locked jobs =
    elim (first_due (select (is_due now only_ids locked) jobs)) [
      | none ↦ (jobs, none)
      | some j ↦ update_where (λ r. r.id) j.id (λ r. true) (claimed settings worker_id now) jobs
    ]
