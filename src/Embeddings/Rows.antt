-- ===== src/Embeddings/Rows.antt =====
-- apps/backend/repositories/embeddings.py over the columns _EmbeddingColumns of
-- apps/backend/models/relational_model.py. There is one table for each kind of owner; an operation
-- works on one of them, and its owner is the row's product or variant.

use elegance_shawls.Base.{
  ◌&&◌, ◌+◌, ◌++◌, ◌==◌, Bool, List, Option, String, [], clip_text, if◌then◌else◌, false, find,
  is_text, leb, ltb, map, none, not, some, str_eq, true, update_where, ◌||◌, ℕ, ◌∷◌,
}

pub data EmbeddingStatus : Type 0 where
  queued running succeeded failed stale : EmbeddingStatus

abbrev pub is_queued : EmbeddingStatus → Bool
is_queued EmbeddingStatus.queued = true
is_queued _ = false

abbrev pub is_running : EmbeddingStatus → Bool
is_running EmbeddingStatus.running = true
is_running _ = false

abbrev pub is_succeeded : EmbeddingStatus → Bool
is_succeeded EmbeddingStatus.succeeded = true
is_succeeded _ = false

-- EMBEDDING_KEY: the columns that, with the owner, identify a row.
pub record Identity : Type 0 where
  pub source_revision : ℕ
  pub representation_version : String
  pub representation_hash : String
  pub provider : String
  pub model : String
  pub model_revision : String
  pub index_version : String

-- The vector is a text here: it is only stored and read back.
pub record EmbeddingRow : Type 0 where
  pub id : ℕ
  pub owner_id : ℕ
  pub product_id : ℕ
  pub identity : Identity
  pub embedding : Option String
  pub status : EmbeddingStatus
  pub attempts : ℕ
  pub max_attempts : ℕ
  pub available_at : ℕ
  pub lease_owner : Option String
  pub lease_expires_at : Option ℕ
  pub last_error : Option String
  pub last_error_retryable : Option Bool
  pub created_at : ℕ
  pub updated_at : ℕ
  pub started_at : Option ℕ
  pub finished_at : Option ℕ

abbrev pub EmbeddingRows : Type 0
EmbeddingRows = List EmbeddingRow

abbrev pub find_row : ℕ → EmbeddingRows → Option EmbeddingRow
find_row i rows = find (λ r. r.id) i rows

-- _VERSION_COLUMNS
abbrev pub same_version : Identity → Identity → Bool
same_version a b =
    str_eq a.representation_version b.representation_version
    && str_eq a.provider b.provider
    && str_eq a.model b.model
    && str_eq a.model_revision b.model_revision
    && str_eq a.index_version b.index_version

abbrev pub same_identity : Identity → Identity → Bool
same_identity a b =
    a.source_revision == b.source_revision
    && str_eq a.representation_hash b.representation_hash
    && same_version a b

unfoldable pub find_identity : ℕ → Identity → EmbeddingRows → Option EmbeddingRow
find_identity owner_id key [] = none
find_identity owner_id key (r ∷ rs) =
    if r.owner_id == owner_id && same_identity r.identity key
    then some r
    else find_identity owner_id key rs

abbrev pub new_row : ℕ → ℕ → ℕ → Identity → ℕ → ℕ → EmbeddingRow
new_row id owner_id product_id key max_attempts now = record {
  id = id;
  owner_id = owner_id;
  product_id = product_id;
  identity = key;
  embedding = none;
  status = EmbeddingStatus.queued;
  attempts = 0;
  max_attempts = max_attempts;
  available_at = now;
  lease_owner = none;
  lease_expires_at = none;
  last_error = none;
  last_error_retryable = none;
  created_at = now;
  updated_at = now;
  started_at = none;
  finished_at = none;
}

-- `upsert_pending`: the table, and the new row or the existing one of the identity.
unfoldable pub upsert_pending :
    ℕ → ℕ → ℕ → Identity → ℕ → ℕ → EmbeddingRows → EmbeddingRows × EmbeddingRow × Bool
unfolding find_identity
upsert_pending id owner_id product_id key max_attempts now rows =
    elim (find_identity owner_id key rows) [
      | some r ↦ (rows, r, false)
      | none ↦ (
        rows ++ new_row id owner_id product_id key max_attempts now ∷ [],
        new_row id owner_id product_id key max_attempts now,
        true,
      )
    ]

-- A lease that ended before `now`.
abbrev pub lease_over : ℕ → EmbeddingRow → Bool
lease_over now r =
    is_running r.status && elim r.lease_expires_at [ none ↦ false | some t ↦ ltb t now ]

-- An abandoned lease that was the last attempt.
abbrev pub exhausted : ℕ → EmbeddingRow → Bool
exhausted now r = lease_over now r && leb r.max_attempts r.attempts

abbrev pub given_up : ℕ → EmbeddingRow → EmbeddingRow
given_up now r = record r {
  status = EmbeddingStatus.failed;
  last_error = some "lease expired after the last attempt";
  last_error_retryable = some false;
  lease_owner = none;
  lease_expires_at = none;
  finished_at = some now;
  updated_at = now;
}

abbrev pub is_claimable : ℕ → EmbeddingRow → Bool
is_claimable now r =
    ltb r.attempts r.max_attempts
    && (is_queued r.status && leb r.available_at now || lease_over now r)

abbrev pub leased : String → ℕ → ℕ → EmbeddingRow → EmbeddingRow
leased owner lease_seconds now r = record r {
  status = EmbeddingStatus.running;
  attempts = r.attempts + 1;
  lease_owner = some owner;
  lease_expires_at = some (now + lease_seconds);
  started_at = some now;
  updated_at = now;
}

-- `claim`
unfoldable pub claim : ℕ → String → ℕ → ℕ → EmbeddingRows → EmbeddingRows × Option EmbeddingRow
claim id owner lease_seconds now rows =
    let cleared = update_where (λ r. r.id) id (exhausted now) (given_up now) rows in
    update_where (λ r. r.id) id (is_claimable now) (leased owner lease_seconds now) cleared.0

-- The caller holds the row's lease.
abbrev pub holds_lease : String → EmbeddingRow → Bool
holds_lease owner r =
    is_running r.status && elim r.lease_owner [ none ↦ false | some w ↦ str_eq w owner ]

abbrev pub embedded : String → ℕ → EmbeddingRow → EmbeddingRow
embedded vector now r = record r {
  status = EmbeddingStatus.succeeded;
  embedding = some vector;
  lease_owner = none;
  lease_expires_at = none;
  last_error = none;
  last_error_retryable = none;
  finished_at = some now;
  updated_at = now;
}

-- An older vector of the same owner and version as `row`.
abbrev pub is_superseded : EmbeddingRow → EmbeddingRow → Bool
is_superseded row r =
    r.owner_id == row.owner_id
    && not (r.id == row.id)
    && is_succeeded r.status
    && same_version r.identity row.identity

abbrev pub outdated : EmbeddingRow → ℕ → EmbeddingRow → EmbeddingRow
outdated row now r =
    if is_superseded row r then record r { status = EmbeddingStatus.stale; updated_at = now } else r

-- Once a vector is written, the older ones of its owner and version that the second statement sees are
-- stale: `meanwhile` is what other sessions commit between the two statements.
unfoldable pub retire :
    ℕ
    → (EmbeddingRows → EmbeddingRows)
    → EmbeddingRows × Option EmbeddingRow
    → EmbeddingRows × Option EmbeddingRow
retire now meanwhile (rows, none) = (rows, none)
retire now meanwhile (rows, some row) = (map (outdated row now) (meanwhile rows), some row)

-- `complete`: two statements of one transaction, which locks no other row of the owner.
unfoldable pub complete :
    ℕ
    → String
    → String
    → ℕ
    → (EmbeddingRows → EmbeddingRows)
    → EmbeddingRows
    → EmbeddingRows × Option EmbeddingRow
unfolding retire
complete id owner vector now meanwhile rows =
    retire now meanwhile
      (update_where (λ r. r.id) id (holds_lease owner) (embedded vector now) rows)

-- How `finish` ends a run: for good, or to be tried again after a delay.
pub data Ending : Type 0 where
  failed stale : Ending
  retry : (delay_seconds : ℕ) → Ending

abbrev pub status_of : Ending → EmbeddingStatus
status_of Ending.failed = EmbeddingStatus.failed
status_of Ending.stale = EmbeddingStatus.stale
status_of (Ending.retry delay) = EmbeddingStatus.queued

-- error[:MAX_ERROR_LENGTH] if error else None
unfoldable pub given_error : Option String → Option String
given_error none = none
given_error (some error) = if is_text error then some (clip_text 300 error) else none

abbrev pub released : Ending → Option String → Option Bool → ℕ → EmbeddingRow → EmbeddingRow
released e error retryable now r = record r {
  status = status_of e;
  last_error = given_error error;
  last_error_retryable = retryable;
  lease_owner = none;
  lease_expires_at = none;
  updated_at = now;
  available_at = elim e [ retry delay ↦ now + delay | _ ↦ r.available_at ];
  finished_at = elim e [ retry delay ↦ r.finished_at | _ ↦ some now ];
}

-- `finish`
unfoldable pub finish :
    ℕ
    → String
    → Ending
    → Option String
    → Option Bool
    → ℕ
    → EmbeddingRows
    → EmbeddingRows × Option EmbeddingRow
unfolding given_error
finish id owner e error retryable now rows =
    update_where (λ r. r.id) id (holds_lease owner) (released e error retryable now) rows
