-- ===== src/Enrichment/Process.antt =====
-- `process` of apps/backend/enrichment/service.py: one queued suggestion is run to a final state.

use elegance_shawls.Catalogue.Errors.{StagedStatus}
use elegance_shawls.Staged.Rows.{StagedProduct, StagedProductDraft}
use elegance_shawls.Enrichment.Generate.{Parsed, ProviderFailure, Reply, generate}
use elegance_shawls.Base.{
  Bool, List, Option, String, [], if◌then◌else◌, false, find, none, not, some, str_eq, true, ℕ, ◌⊎◌,
}
use elegance_shawls.Enrichment.Suggestions.{
  claim, begin_retry, finish, Final, Ending, Suggestion, Suggestions, SuggestionStatus,
}

-- What `process` returns: "skipped", or a status.
pub data Answer : Type 0 where
  skipped : Answer
  settled : SuggestionStatus → Answer

abbrev pub not_reviewable : StagedStatus → Bool
not_reviewable StagedStatus.rejected = true
not_reviewable StagedStatus.archived = true
not_reviewable _ = false

abbrev pub ending : Final → Option String → Ending
ending final error = record {
  final = final;
  suggestions = none;
  validation_errors = [];
  last_error = error;
}

abbrev pub no_longer_reviewable : Ending
no_longer_reviewable = ending Final.cancelled (some "staged_product_not_reviewable")

abbrev pub input_changed : Ending
input_changed = ending Final.failed (some "input_changed")

-- The inner `finish`: "cancelled" where the race to an explicit cancel was lost.
unfoldable pub settle : ℕ → Ending → ℕ → Suggestions → Suggestions × Answer
unfolding finish
settle id e now rows =
    let done = finish id e now rows in
    (
      done.0,
      elim done.1 [
        | none ↦ Answer.settled SuggestionStatus.cancelled
        | some r ↦ Answer.settled r.status
      ],
    )

-- The parts that are not of this file: `prepare_hash` is the hash that `prepare` computes of a draft,
-- `others` is what other sessions commit before the transaction of each number (the retry's is 1 and
-- the end's is 2), and the rest are the arguments of `generate`.
module _ {Money : Type 0} (prepare_hash : StagedProductDraft → String)
    (others : ℕ → Suggestions → Suggestions) (in_budget : Money → Bool)
    (record_spent : ℕ → Money → Money) (provider : Suggestion → ℕ → ProviderFailure ⊎ Reply)
    (parse : String → Parsed) (now : ℕ) where
  unfoldable pub on_retry : ℕ → ℕ → String → Suggestions → Suggestions × Bool
  unfolding begin_retry
  on_retry id attempt error rows = begin_retry id error now (others 1 rows)

  -- From the claimed row on.
  unfoldable pub run_claimed :
      ℕ
      → Suggestion
      → Option StagedProduct
      → Suggestions
      → Money
      → (Suggestions × Money) × Option Answer
  unfolding settle on_retry
  run_claimed id row none rows money =
      let (rows', answer) = settle id no_longer_reviewable now (others 2 rows) in
      ((rows', money), some answer)
  run_claimed id row (some staged) rows money =
      if not_reviewable staged.status
      then (let (rows', answer) = settle id no_longer_reviewable now (others 2 rows) in
          ((rows', money), some answer))
      else if not (str_eq (prepare_hash staged.product) row.input_content_hash)
      then (let (rows', answer) = settle id input_changed now (others 2 rows) in
          ((rows', money), some answer))
      else (let ((rows1, money1), generated) =
            generate in_budget record_spent (provider row) parse (on_retry id) rows money in
          elim generated [
            | none ↦ ((rows1, money1), none)
            | some g ↦
                let (rows', answer) = settle id g.ending now (others 2 rows1) in
                ((rows', money1), some answer)
          ])

  -- What follows the transaction of the claim.
  unfoldable pub after_claim :
      ℕ
      → List StagedProduct
      → Money
      → Suggestions × Option Suggestion
      → (Suggestions × Money) × Option Answer
  unfolding run_claimed
  after_claim id staged money (rows, none) = ((rows, money), some Answer.skipped)
  after_claim id staged money (rows, some row) =
      run_claimed id row (find (λ s. s.id) row.staged_product_id staged) rows money

  unfoldable pub process :
      ℕ → List StagedProduct → Suggestions → Money → (Suggestions × Money) × Option Answer
  unfolding after_claim claim
  process id staged rows money = after_claim id staged money (claim id now rows)
