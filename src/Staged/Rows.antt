-- ===== src/Staged/Rows.antt =====
-- classes StagedProduct and StagedProductAudit of apps/backend/models/relational_model.py, the
-- review workflow of apps/backend/schemas/ingestion_schema.py, and the database that the review
-- works on.
use elegance_shawls.Catalogue.Errors.{StagedStatus}
use elegance_shawls.Catalogue.Rows.{Product}
use elegance_shawls.Base.{◌++◌, Bool, List, Option, String, [], false, find, replace, true, ℕ, ◌∷◌}

-- A variant and a draft of apps/backend/schemas/ingestion_schema.py, as stored: any key may be missing.
pub record StagedVariant : Type 0 where
  pub name : Option String
  pub color : Option String
  pub size : Option String
  pub image_url : Option String
  pub stock : ℕ

pub record StagedProductDraft : Type 0 where
  pub name : Option String
  pub slug : Option String
  pub cover_image_url : Option String
  pub images : Option (List String)
  pub main_description : Option String
  pub category : Option String
  pub material : Option String
  pub sizing : Option String
  pub weight : Option String
  pub variants : Option (List StagedVariant)

-- Prices of the source are in hundredths (NUMERIC(12, 2)); attributes are a JSON text.
pub record StagedProduct : Type 0 where
  pub id : ℕ
  pub source_id : String
  pub source_name : String
  pub source_url : String
  pub source_product_id : Option String
  pub source_content_hash : String
  pub latest_source_hash : Option String
  pub dedupe_key : String
  pub fetched_at : ℕ
  pub normalized_at : ℕ
  pub ingestion_job_id : Option ℕ
  pub source_price : Option ℕ
  pub source_currency : Option String
  pub status : StagedStatus
  pub rejection_reason : Option String
  pub product : StagedProductDraft
  pub source_attributes : String
  pub missing_fields : List String
  pub stock_known : Bool
  pub approved_price : Option ℕ
  pub approved_stock : Option ℕ
  pub product_id : Option ℕ
  pub created_at : ℕ
  pub updated_at : ℕ

pub data Action : Type 0 where
  staged source_updated source_changed reject approve publish unpublish archive : Action

pub record AuditEntry : Type 0 where
  pub staged_product_id : ℕ
  pub action : Action
  pub from_status : Option StagedStatus
  pub to_status : Option StagedStatus
  pub actor : String
  pub note : Option String

-- `can_transition`: the table STAGED_TRANSITIONS.
abbrev pub can_transition : StagedStatus → StagedStatus → Bool
can_transition StagedStatus.pending_review StagedStatus.approved = true
can_transition StagedStatus.pending_review StagedStatus.rejected = true
can_transition StagedStatus.approved StagedStatus.published = true
can_transition StagedStatus.approved StagedStatus.archived = true
can_transition StagedStatus.published StagedStatus.unpublished = true
can_transition StagedStatus.published StagedStatus.archived = true
can_transition StagedStatus.unpublished StagedStatus.published = true
can_transition StagedStatus.unpublished StagedStatus.archived = true
can_transition StagedStatus.rejected StagedStatus.archived = true
can_transition _ _ = false

-- The tables that the review reads and writes. The audit trail is in the order of its `seq`.
pub record Db : Type 0 where
  pub staged : List StagedProduct
  pub audit : List AuditEntry
  pub products : List Product

abbrev pub find_staged : ℕ → Db → Option StagedProduct
find_staged i db = find (λ s. s.id) i db.staged

abbrev pub find_product : ℕ → Db → Option Product
find_product i db = find (λ p. p.id) i db.products

-- The row is written and one entry is added to the trail.
abbrev pub record_change : StagedProduct → AuditEntry → Db → Db
record_change s entry db = record db {
  staged = replace (λ r. r.id) s.id s db.staged;
  audit = db.audit ++ entry ∷ [];
}
