-- ===== src/Staged/Staging.antt =====
-- apps/backend/repositories/staged.py: staging a scraped product, and listing.
use elegance_shawls.Catalogue.Errors.{StagedStatus}
use elegance_shawls.Jobs.Row.{Outcome}
use elegance_shawls.Keyset.{Key, key_less, list_page}
use elegance_shawls.Staged.Rows.{
  Action, AuditEntry, StagedProduct, StagedProductDraft, record_change, Db,
}
use elegance_shawls.Base.{
  ◌&&◌, ◌++◌, ◌<>◌, Bool, List, Option, String, [], if◌then◌else◌, false, is_text, none, select,
  some, str_eq, true, ℕ, ◌∷◌,
}

-- The arguments of `stage_product`.
pub record Scraped : Type 0 where
  pub source_id : String
  pub source_name : String
  pub source_url : String
  pub source_product_id : Option String
  pub source_content_hash : String
  pub fetched_at : ℕ
  pub ingestion_job_id : Option ℕ
  pub source_price : Option ℕ
  pub source_currency : Option String
  pub product : StagedProductDraft
  pub source_attributes : String
  pub missing_fields : List String

-- f"id:{source_product_id}" if source_product_id else f"url:{source_url}"
unfoldable pub dedupe_key_of : Scraped → String
dedupe_key_of s = elim s.source_product_id [
  | none ↦ "url:" <> s.source_url
  | some i ↦ if is_text i then "id:" <> i else "url:" <> s.source_url
]

abbrev pub new_staged : ℕ → ℕ → Scraped → StagedProduct
new_staged id now s = record {
  id = id;
  source_id = s.source_id;
  source_name = s.source_name;
  source_url = s.source_url;
  source_product_id = s.source_product_id;
  source_content_hash = s.source_content_hash;
  latest_source_hash = none;
  dedupe_key = dedupe_key_of s;
  fetched_at = s.fetched_at;
  normalized_at = now;
  ingestion_job_id = s.ingestion_job_id;
  source_price = s.source_price;
  source_currency = s.source_currency;
  status = StagedStatus.pending_review;
  rejection_reason = none;
  product = s.product;
  source_attributes = s.source_attributes;
  missing_fields = s.missing_fields;
  stock_known = false;
  approved_price = none;
  approved_stock = none;
  product_id = none;
  created_at = now;
  updated_at = now;
}

-- The columns that a scrape overwrites while the row awaits review.
abbrev pub refreshed : ℕ → Scraped → StagedProduct → StagedProduct
refreshed now s row = record row {
  source_url = s.source_url;
  source_content_hash = s.source_content_hash;
  fetched_at = s.fetched_at;
  normalized_at = now;
  ingestion_job_id = s.ingestion_job_id;
  source_price = s.source_price;
  source_currency = s.source_currency;
  product = s.product;
  source_attributes = s.source_attributes;
  missing_fields = s.missing_fields;
  updated_at = now;
}

abbrev pub flagged : ℕ → Scraped → StagedProduct → StagedProduct
flagged now s row = record row { latest_source_hash = some s.source_content_hash; updated_at = now }

abbrev pub is_pending : StagedStatus → Bool
is_pending StagedStatus.pending_review = true
is_pending _ = false

unfoldable pub find_dedupe : String → String → List StagedProduct → Option StagedProduct
find_dedupe source_id key [] = none
find_dedupe source_id key (r ∷ rs) =
    if str_eq r.source_id source_id && str_eq r.dedupe_key key
    then some r
    else find_dedupe source_id key rs

abbrev pub by_ingestion : ℕ → Action → Option StagedStatus → Option String → AuditEntry
by_ingestion id action to_status note = record {
  staged_product_id = id;
  action = action;
  from_status = none;
  to_status = to_status;
  actor = "ingestion";
  note = note;
}

-- What happens to a row that is there already.
unfoldable pub restage : ℕ → Scraped → StagedProduct → Db → Db × StagedProduct × Outcome
restage now s row db =
    if str_eq row.source_content_hash s.source_content_hash
    then (db, row, Outcome.unchanged)
    else if is_pending row.status
    then (
      record_change (refreshed now s row) (by_ingestion row.id Action.source_updated none none) db,
      refreshed now s row,
      Outcome.updated,
    )
    else (
      record_change (flagged now s row)
          (by_ingestion row.id Action.source_changed none
            (some "Source changed after review; not applied"))
          db,
      flagged now s row,
      Outcome.source_changed,
    )

-- `stage_product`: the row, and what was done. `new_id` is the primary key that the database draws.
unfoldable pub stage_product : ℕ → ℕ → Scraped → Db → Db × StagedProduct × Outcome
unfolding restage
stage_product new_id now s db = elim (find_dedupe s.source_id (dedupe_key_of s) db.staged) [
  | none ↦ (
    record db {
      staged = db.staged ++ new_staged new_id now s ∷ [];
      audit =
          db.audit
          ++ by_ingestion new_id Action.staged (some StagedStatus.pending_review) none ∷ [];
    },
    new_staged new_id now s,
    Outcome.created,
  )
  | some row ↦ restage now s row db
]

-- `list_staged`: `listing` is the table in descending order of (created_at, id).
unfoldable pub list_staged :
    Option (StagedStatus → Bool)
    → ℕ
    → Option Key
    → List StagedProduct
    → List StagedProduct × Option Key
unfolding list_page
list_staged status limit position listing =
    list_page key_less (λ s. record { created_at = s.created_at; id = s.id }) limit position
      (elim status [ none ↦ listing | some is_status ↦ select (λ s. is_status s.status) listing ])
