-- ===== src/Embeddings/Process.antt =====
-- `process` of apps/backend/search/embedding_service.py: one queued row is embedded.
use elegance_shawls.Embeddings.Sources.{Loaded, is_match, same_provider}
use elegance_shawls.Embeddings.Rows.{EmbeddingRow, EmbeddingRows, Ending, claim, complete, finish}
use elegance_shawls.Base.{
  ◌&&◌, ◌*◌, ◌-◌, ◌<>◌, ◌==◌, Bool, List, Option, String, [], ◌^◌, if◌then◌else◌, false, inl, inr,
  is_some, joined, ltb, none, not, some, ◌||◌, ℕ, ◌∷◌, ◌⊎◌,
}
use elegance_shawls.Embeddings.Provider.{
  Checked, EmbeddingError, EmbeddingProvider, Output, Raised, embed_checked, non_retryable_error,
}
use elegance_shawls.Embeddings.Representation.{Unrepresentable}

-- EMBEDDING_DIMENSIONS of apps/backend/models/relational_model.py.
abbrev pub embedding_dimensions : ℕ
embedding_dimensions = 768

pub data Answer : Type 0 where
  succeeded stale failed skipped lease_lost : Answer
  retry : (delay : ℕ) → Answer

-- The vector column's text.
abbrev pub stored_vector : List String → String
stored_vector components = "[" <> joined "," components <> "]"

-- A call's surroundings. `load` is what `load_source` reads of the row's owner in the first
-- transaction (1) and, under row locks, in the last (2), and `others` is what other sessions commit
-- before the end of a run without a vector (1), before the last transaction (2), and between the two
-- statements of a completion (3). `unrepresentable` is the text of a ValueError.
pub record Worker : Type 0 where
  pub is_blank : String → Bool
  pub decimal : ℕ → String
  pub unrepresentable : Unrepresentable → String
  pub load : ℕ → ℕ → Loaded
  pub others : ℕ → EmbeddingRows → EmbeddingRows
  pub provider : EmbeddingProvider
  pub embed : List String → Raised ⊎ Output
  pub owner : String
  pub lease_seconds : ℕ
  pub backoff_seconds : ℕ
  pub now : ℕ

-- The only vector of the answer for one text.
unfoldable pub only_vector : Checked (List (List String)) → Checked (List String)
only_vector (inl error) = inl error
only_vector (inr (vector ∷ [])) = inr vector
only_vector (inr _) = inl (non_retryable_error "ValueError: provider failure")

module _ (w : Worker) where
  -- `settle`: where the lease is gone, the update finds no row.
  unfoldable pub settle : ℕ → Ending → String → Option Bool → EmbeddingRows → EmbeddingRows
  unfolding finish
  settle id e error retryable rows =
      (finish id w.owner e (some error) retryable w.now (w.others 1 rows)).0

  unfoldable pub embedded_text : EmbeddingRow → String → Checked (List String)
  unfolding only_vector embed_checked
  embedded_text row text =
      if not (same_provider w.provider row.identity)
        || not (w.provider.dimensions == embedding_dimensions)
      then inl (
          non_retryable_error
            "provider identity or dimensions do not match the row and the vector column")
      else only_vector (embed_checked w.is_blank w.decimal w.provider w.embed (text ∷ []))

  abbrev pub backoff : EmbeddingRow → ℕ
  backoff row = w.backoff_seconds * 2 ^ (row.attempts - 1)

  -- A failed call: tried again while the error allows it and attempts are left.
  unfoldable pub provider_failed :
      ℕ → EmbeddingRow → EmbeddingError → EmbeddingRows → EmbeddingRows × Answer
  unfolding settle
  provider_failed id row error rows =
      if error.retryable && ltb row.attempts row.max_attempts
      then (
        settle id (Ending.retry (backoff row)) error.message (some error.retryable) rows,
        Answer.retry (backoff row),
      )
      else (settle id Ending.failed error.message (some error.retryable) rows, Answer.failed)

  -- The last transaction; its read may raise a ValueError, and then nothing is written.
  unfoldable pub publish :
      ℕ → EmbeddingRow → List String → EmbeddingRows → EmbeddingRows × Option Answer
  unfolding complete finish is_match
  publish id row vector rows = elim (w.load 2 row.owner_id) [
    | inl error ↦ (rows, none)
    | inr current ↦
        if is_match current row
        then (let done = complete id w.owner (stored_vector vector) w.now (w.others 3) rows in
            (done.0, some (if is_some done.1 then Answer.succeeded else Answer.lease_lost)))
        else (let done =
              finish id w.owner Ending.stale (some "source changed during embedding") none w.now
                rows in
            (done.0, some (if is_some done.1 then Answer.stale else Answer.lease_lost)))
  ]

  -- A source that matches the row is embedded.
  unfoldable pub run_source :
      ℕ → EmbeddingRow → String → EmbeddingRows → EmbeddingRows × Option Answer
  unfolding embedded_text provider_failed publish
  run_source id row text rows = elim (embedded_text row text) [
    | inl error ↦ let (rows', answer) = provider_failed id row error rows in (rows', some answer)
    | inr vector ↦ publish id row vector (w.others 2 rows)
  ]

  unfoldable pub run_claimed : ℕ → EmbeddingRow → EmbeddingRows → EmbeddingRows × Option Answer
  unfolding run_source settle is_match
  run_claimed id row rows = elim (w.load 1 row.owner_id) [
    | inl error ↦ (
      settle id Ending.failed ("representation: " <> w.unrepresentable error) (some false) rows,
      some Answer.failed,
    )
    | inr none ↦
        (settle id Ending.stale "source changed or no longer public" none rows, some Answer.stale)
    | inr (some source) ↦
        if is_match (some source) row then run_source id row source.representation.text rows else (
          settle id Ending.stale "source changed or no longer public" none rows,
          some Answer.stale,
        )
  ]

  unfoldable pub after_claim :
      ℕ → EmbeddingRows × Option EmbeddingRow → EmbeddingRows × Option Answer
  unfolding run_claimed
  after_claim id (rows, none) = (rows, some Answer.skipped)
  after_claim id (rows, some row) = run_claimed id row rows

  -- The table and the answer; there is none where the last read raises.
  unfoldable pub process : ℕ → EmbeddingRows → EmbeddingRows × Option Answer
  unfolding after_claim claim
  process id rows = after_claim id (claim id w.owner w.lease_seconds w.now rows)
