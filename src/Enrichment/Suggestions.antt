-- ===== src/Enrichment/Suggestions.antt =====
-- apps/backend/repositories/enrichment.py over the table EnrichmentSuggestion of
-- apps/backend/models/relational_model.py. Each operation is one transaction; `now` is the clock.
use elegance_shawls.Base.{
  ◌&&◌, ◌+◌, ◌++◌, ◌==◌, Bool, List, Option, String, [], clip_text, if◌then◌else◌, false, find,
  is_some, is_text, ltb, none, some, str_eq, true, update_where, ◌||◌, ℕ, ◌∷◌,
}

pub data SuggestionStatus : Type 0 where
  queued running succeeded failed cancelled : SuggestionStatus

abbrev pub is_queued : SuggestionStatus → Bool
is_queued SuggestionStatus.queued = true
is_queued _ = false

abbrev pub is_running : SuggestionStatus → Bool
is_running SuggestionStatus.running = true
is_running _ = false

-- E.status.in_(("queued", "running"))
abbrev pub is_open : SuggestionStatus → Bool
is_open status = is_queued status || is_running status

-- The model's suggestions are a JSON text.
pub record Suggestion : Type 0 where
  pub id : ℕ
  pub staged_product_id : ℕ
  pub status : SuggestionStatus
  pub suggestions : Option String
  pub validation_errors : List String
  pub provider : String
  pub model : String
  pub prompt_version : String
  pub vocabulary_version : String
  pub input_content_hash : String
  pub attempts : ℕ
  pub last_error : Option String
  pub trace_id : Option String
  pub reviewed_by : Option String
  pub reviewed_at : Option ℕ
  pub created_at : ℕ
  pub started_at : Option ℕ
  pub finished_at : Option ℕ
  pub updated_at : ℕ

abbrev pub Suggestions : Type 0
Suggestions = List Suggestion

abbrev pub find_suggestion : ℕ → Suggestions → Option Suggestion
find_suggestion i rows = find (λ r. r.id) i rows

abbrev pub max_attempts : ℕ
max_attempts = 2

-- error[:MAX_ERROR_LENGTH]
unfoldable pub clip_error : String → String
clip_error error = clip_text 300 error

-- error[:MAX_ERROR_LENGTH] if error else None
unfoldable pub given_error : Option String → Option String
unfolding clip_error
given_error none = none
given_error (some error) = if is_text error then some (clip_error error) else none

-- The arguments of `create`.
pub record Asked : Type 0 where
  pub staged_id : ℕ
  pub input_hash : String
  pub prompt_version : String
  pub model : String
  pub vocabulary_version : String
  pub provider : String
  pub trace_id : Option String

abbrev pub new_suggestion : ℕ → ℕ → Asked → Suggestion
new_suggestion id now a = record {
  id = id;
  staged_product_id = a.staged_id;
  status = SuggestionStatus.queued;
  suggestions = none;
  validation_errors = [];
  provider = a.provider;
  model = a.model;
  prompt_version = a.prompt_version;
  vocabulary_version = a.vocabulary_version;
  input_content_hash = a.input_hash;
  attempts = 0;
  last_error = none;
  trace_id = a.trace_id;
  reviewed_by = none;
  reviewed_at = none;
  created_at = now;
  started_at = none;
  finished_at = none;
  updated_at = now;
}

-- The idempotency key of the first unique index.
abbrev pub has_same_key : Asked → Suggestion → Bool
has_same_key a r =
    r.staged_product_id == a.staged_id
    && str_eq r.input_content_hash a.input_hash
    && str_eq r.prompt_version a.prompt_version
    && str_eq r.model a.model

unfoldable pub find_same_key : Asked → Suggestions → Option Suggestion
find_same_key a [] = none
find_same_key a (r ∷ rs) = if has_same_key a r then some r else find_same_key a rs

-- The second: one queued or running suggestion for a staged product.
unfoldable pub find_open : ℕ → Suggestions → Option Suggestion
find_open staged_id [] = none
find_open staged_id (r ∷ rs) =
    if r.staged_product_id == staged_id && is_open r.status then some r else find_open staged_id rs

-- `create`: the table, and the new row or the existing one.
unfoldable pub create : ℕ → ℕ → Asked → Suggestions → Suggestions × Suggestion × Bool
unfolding find_same_key find_open
create id now a rows = elim (find_same_key a rows) [
  | some r ↦ (rows, r, false)
  | none ↦ elim (find_open a.staged_id rows) [
    | some r ↦ (rows, r, false)
    | none ↦ (rows ++ new_suggestion id now a ∷ [], new_suggestion id now a, true)
  ]
]

abbrev pub begun : ℕ → Suggestion → Suggestion
begun now r = record r {
  status = SuggestionStatus.running;
  attempts = 1;
  started_at = some now;
  updated_at = now;
}

unfoldable pub claim : ℕ → ℕ → Suggestions → Suggestions × Option Suggestion
claim id now rows = update_where (λ r. r.id) id (λ r. is_queued r.status) (begun now) rows

abbrev pub retried : String → ℕ → Suggestion → Suggestion
retried error now r = record r {
  attempts = r.attempts + 1;
  last_error = some (clip_error error);
  updated_at = now;
}

-- `begin_retry`: whether the worker goes on.
unfoldable pub begin_retry : ℕ → String → ℕ → Suggestions → Suggestions × Bool
unfolding clip_error
begin_retry id error now rows =
    let updated =
      update_where (λ r. r.id) id (λ r. is_running r.status && ltb r.attempts max_attempts)
        (retried error now) rows in
    (updated.0, is_some updated.1)

-- The status that `finish` is called with.
pub data Final : Type 0 where
  succeeded failed cancelled : Final

abbrev pub status_of : Final → SuggestionStatus
status_of Final.succeeded = SuggestionStatus.succeeded
status_of Final.failed = SuggestionStatus.failed
status_of Final.cancelled = SuggestionStatus.cancelled

-- The keyword arguments of `finish`.
pub record Ending : Type 0 where
  pub final : Final
  pub suggestions : Option String
  pub validation_errors : List String
  pub last_error : Option String

abbrev pub ended : Ending → ℕ → Suggestion → Suggestion
ended e now r = record r {
  status = status_of e.final;
  suggestions = e.suggestions;
  validation_errors = e.validation_errors;
  last_error = given_error e.last_error;
  finished_at = some now;
  updated_at = now;
}

unfoldable pub finish : ℕ → Ending → ℕ → Suggestions → Suggestions × Option Suggestion
unfolding given_error
finish id e now rows = update_where (λ r. r.id) id (λ r. is_open r.status) (ended e now) rows

abbrev pub withdrawn : ℕ → Suggestion → Suggestion
withdrawn now r = record r {
  status = SuggestionStatus.cancelled;
  finished_at = some now;
  updated_at = now;
}

unfoldable pub cancel : ℕ → ℕ → ℕ → Suggestions → Suggestions × Option Suggestion
cancel staged_id id now rows =
    update_where (λ r. r.id) id (λ r. r.staged_product_id == staged_id && is_open r.status)
      (withdrawn now) rows
