-- ===== src/Staged/Steps.antt =====
-- apps/backend/repositories/staged.py: the operations as steps of the database, and what a step
-- that succeeds has checked and written.
use elegance_shawls.Staged.Staging.{Scraped, stage_product, is_pending}
use elegance_shawls.Catalogue.Errors.{Result, StagedStatus, raised, returned}
use elegance_shawls.Staged.Review.{
  Creation, archive, publish, transition, unpublish, approve, reject,
}
use elegance_shawls.Staged.Rows.{
  Action, AuditEntry, StagedProduct, can_transition, find_staged, record_change, Db,
}
use elegance_shawls.Base.{
  ◌++◌, Option, String, [], arith, replace, some, true, ℕ, ◌∷◌, ◌≡◌, Bool, false, is_some, leb,
  none, text_length,
}

abbrev pub was_approved : StagedStatus → Bool
was_approved StagedStatus.approved = true
was_approved StagedStatus.published = true
was_approved StagedStatus.unpublished = true
was_approved _ = false

abbrev pub is_rejected : StagedStatus → Bool
is_rejected StagedStatus.rejected = true
is_rejected _ = false

abbrev pub has_reason : Option String → Bool
has_reason none = false
has_reason (some reason) = leb 3 (text_length reason)

-- One call of an operation, with the values that the database and the clock supply.
pub data Op : Type 0 where
  stage : (new_id now : ℕ) → Scraped → Op
  reject_row : (id : ℕ) → (reason actor : String) → (now : ℕ) → Op
  approve_row : Creation → (id price stock : ℕ) → (actor : String) → (now : ℕ) → Op
  publish_row unpublish_row archive_row : (id : ℕ) → (actor : String) → (now : ℕ) → Op

-- The savepoint: an operation that raises leaves the database as it was.
abbrev pub committed : Db → Result (Db × StagedProduct) → Db
committed db (returned (db', row)) = db'
committed db (raised e) = db

unfoldable pub apply : (String → String) → Op → Db → Db
unfolding stage_product reject approve publish unpublish archive
apply strip (Op.stage new_id now s) db = (stage_product new_id now s db).0
apply strip (Op.reject_row id reason actor now) db =
    committed db (reject strip id reason actor now db)
apply strip (Op.approve_row creation id price stock actor now) db =
    committed db (approve creation id price stock actor now db)
apply strip (Op.publish_row id actor now) db = committed db (publish id actor now db)
apply strip (Op.unpublish_row id actor now) db = committed db (unpublish id actor now db)
apply strip (Op.archive_row id actor now) db = committed db (archive id actor now db)

-- What holds of a row whatever its history: a row past approval has its product, its price and a
-- known stock; a rejected row has a reason of three characters at least; a row that awaits review
-- has no product yet.
pub record RowIsValid (r : StagedProduct) : Type 0 where
  pub product_known : was_approved r.status ≡ true → is_some r.product_id ≡ true
  pub price_known : was_approved r.status ≡ true → is_some r.approved_price ≡ true
  pub stock_known : was_approved r.status ≡ true → r.stock_known ≡ true
  pub reason_known : is_rejected r.status ≡ true → has_reason r.rejection_reason ≡ true
  pub product_absent : is_pending r.status ≡ true → r.product_id ≡ none

-- A review action that succeeds: the row's status moves along the workflow, the row is written back
-- under its key, and one entry of the trail names the row and both statuses.
pub record Reviewed (id : ℕ) (db db' : Db) (row' : StagedProduct) : Type 0 where
  pub row : StagedProduct
  pub entry : AuditEntry
  pub found : find_staged id db ≡ some row
  pub legal : can_transition row.status row'.status ≡ true
  pub same_id : row'.id ≡ row.id
  pub kept_valid : RowIsValid row → RowIsValid row'
  pub staged_after : db'.staged ≡ replace (λ r. r.id) row'.id row' db.staged
  pub audit_after : db'.audit ≡ db.audit ++ entry ∷ []
  pub entry_id : entry.staged_product_id ≡ id
  pub entry_from : entry.from_status ≡ some row.status
  pub entry_to : entry.to_status ≡ some row'.status

pub transition-returned :
    (set_fields : StagedProduct → StagedProduct) (id : ℕ) (target : StagedStatus) (action : Action)
    (remark : Option String) (actor : String) (now : ℕ) (db : Db) {db' : Db} {row' : StagedProduct}
    → transition set_fields id target action remark actor now db ≡ returned (db', row')
    → (row : StagedProduct) × (find_staged id db ≡ some row)
      × (can_transition row.status target ≡ true)
      × (record (set_fields row) { status = target; updated_at = now } ≡ row')
      × (record_change row'
            (record {
              staged_product_id = id;
              action = action;
              from_status = some row.status;
              to_status = some target;
              actor = actor;
              note = remark;
            })
            db
          ≡ db')
unfolding transition
transition-returned set_fields id target action remark actor now db e = ground arith

-- A move of the status alone keeps a row valid, unless it is to `approved` or `rejected`.
pub status_moved-valid :
    (row : StagedProduct) (target : StagedStatus) (now : ℕ)
    → can_transition row.status target ≡ true
    → is_rejected target ≡ false
    → (was_approved target ≡ true → was_approved row.status ≡ true)
    → RowIsValid row
    → RowIsValid (record row { status = target; updated_at = now })
status_moved-valid row target now legal not_rejected past v = record {
  product_known = λ h. v.product_known (past h);
  price_known = λ h. v.price_known (past h);
  stock_known = λ h. v.stock_known (past h);
  reason_known = λ h. absurd (ground arith);
  product_absent = λ h. absurd (ground arith);
}
