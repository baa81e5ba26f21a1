-- ===== src/Staged/Reviews.antt =====
-- apps/backend/repositories/staged.py: what each review action that succeeds has checked and
-- written, for the row and for the catalogue.

use mathlib.Core.Path.{subst}
use elegance_shawls.Catalogue.Rows.{ProductStatus, Product}
use elegance_shawls.Staged.Review.{
  reject, with_reason, publish, set_product_state, transition, unchanged, unpublish, archive,
}
use elegance_shawls.Catalogue.Errors.{
  StagedStatus, returned, bind-returned, require-returned, Result,
}
use elegance_shawls.Staged.Steps.{
  Reviewed, RowIsValid, transition-returned, is_rejected, was_approved, status_moved-valid,
}
use elegance_shawls.Base.{
  Bool-cases, Option, String, arith, inl, inr, leb, refl, some, sym, text_length, true, ℕ, ◌≡◌, ap,
  is_text, ◌∙◌, List, false, none,
}
use elegance_shawls.Staged.Rows.{Action, StagedProduct, can_transition, Db}

-- `transition` is a review step, where the other columns that it sets keep the key and the row valid.
transition-Reviewed :
    (set_fields : StagedProduct → StagedProduct) (id : ℕ) (target : StagedStatus) (action : Action)
    (remark : Option String) (actor : String) (now : ℕ) (db : Db) {db' : Db} {row' : StagedProduct}
    → ((r : StagedProduct) → (set_fields r).id ≡ r.id)
    → ((r : StagedProduct)
        → can_transition r.status target ≡ true
        → RowIsValid r
        → RowIsValid (record (set_fields r) { status = target; updated_at = now }))
    → transition set_fields id target action remark actor now db ≡ returned (db', row')
    → Reviewed id db db' row' × (db'.products ≡ db.products) × (row'.status ≡ target)
transition-Reviewed set_fields id target action remark actor now db {db' = db'} {row' = row'} same
      valid e =
    let (row, found, legal, written, stored) =
      transition-returned set_fields id target action remark actor now db {db' = db'} {row' = row'}
        e in
    let status : row'.status ≡ target = ap (λ (r : StagedProduct). r.status) (sym written) in
    (
      record {
        row = row;
        entry = record {
          staged_product_id = id;
          action = action;
          from_status = some row.status;
          to_status = some target;
          actor = actor;
          note = remark;
        };
        found = found;
        legal = subst (λ t. can_transition row.status t ≡ true) (sym status) legal;
        same_id = ap (λ (r : StagedProduct). r.id) (sym written) ∙ same row;
        kept_valid = λ v. subst RowIsValid written (valid row legal v);
        staged_after = ap (λ (d : Db). d.staged) (sym stored);
        audit_after = ap (λ (d : Db). d.audit) (sym stored);
        entry_id = refl;
        entry_from = refl;
        entry_to = ap some (sym status);
      },
      ap (λ (d : Db). d.products) (sym stored),
      status,
    )

rejected-valid :
    (row : StagedProduct) (reason : String) (now : ℕ)
    → leb 3 (text_length reason) ≡ true
    → can_transition row.status StagedStatus.rejected ≡ true
    → RowIsValid
        (record (with_reason reason row) { status = StagedStatus.rejected; updated_at = now })
rejected-valid row reason now h legal = record {
  product_known = λ p. cc;
  price_known = λ p. cc;
  stock_known = λ p. cc;
  reason_known = λ p. h;
  product_absent = λ p. absurd (ground arith);
}

pub reject-returned :
    (strip : String → String) (id : ℕ) (reason actor : String) (now : ℕ) (db : Db) {db' : Db}
    {row' : StagedProduct}
    → reject strip id reason actor now db ≡ returned (db', row')
    → Reviewed id db db' row' × (db'.products ≡ db.products) × (row'.status ≡ StagedStatus.rejected)
unfolding reject
reject-returned strip id reason actor now db {db' = db'} {row' = row'} e =
    elim (Bool-cases (leb 3 (text_length (strip reason)))) [
      | inr h ↦ absurd (ground arith)
      | inl h ↦
          transition-Reviewed (with_reason (strip reason)) id StagedStatus.rejected Action.reject
            (some (strip reason)) actor now db {db' = db'} {row' = row'} (λ r. refl)
            (λ r legal v. rejected-valid r (strip reason) now h legal) (rw h at e)
    ]

-- The review status that goes with a product's; no review action sets `out_of_stock`.
abbrev pub review_of : ProductStatus → StagedStatus
review_of ProductStatus.active = StagedStatus.published
review_of ProductStatus.draft = StagedStatus.unpublished
review_of ProductStatus.archived = StagedStatus.archived
review_of ProductStatus.out_of_stock = StagedStatus.unpublished

-- What `set_product_state` leaves of the products, for the actions that move the product too.
pub record Shown (status : ProductStatus) (now : ℕ) (db db' : Db) (row' : StagedProduct)
    : Type 0 where
  pub products_after : db'.products ≡ (set_product_state row'.product_id status now db.products).0
  pub status_after : row'.status ≡ review_of status

pub ok_inj :
    {a a' : Db} {b b' : StagedProduct}
    → ◌≡◌ {A = Result (Db × StagedProduct)} (returned (a, b)) (returned (a', b'))
    → (a ≡ a') × (b ≡ b')
ok_inj e = ground arith

-- A review action that moves the status of the row's product too.
product_moved :
    (status : ProductStatus) (action : Action) (id : ℕ) (actor : String) (now : ℕ)
    (db moved db' : Db) (row row' : StagedProduct)
    → is_rejected (review_of status) ≡ false
    → ((r : StagedProduct)
        → can_transition r.status (review_of status) ≡ true
        → was_approved (review_of status) ≡ true
        → was_approved r.status ≡ true)
    → transition unchanged id (review_of status) action none actor now db ≡ returned (moved, row)
    → ◌≡◌ {A = Result (Db × StagedProduct)}
        (returned (
          record moved {
            products = (set_product_state row.product_id status now moved.products).0;
          },
          row,
        ))
        (returned (db', row'))
    → Reviewed id db db' row' × Shown status now db db' row'
product_moved status action id actor now db moved db' row row' past_review past t e =
    let (p, q) =
      ok_inj
        {a = record moved {
          products = (set_product_state row.product_id status now moved.products).0;
        }}
        {a' = db'} {b = row} {b' = row'} e in
    let w : record moved {
      products = (set_product_state row'.product_id status now moved.products).0;
    }
        ≡ db' =
      ap
        (λ (r : StagedProduct). record moved {
          products = (set_product_state r.product_id status now moved.products).0;
        })
        (sym q)
      ∙ p in
    let (r, kept, at) =
      transition-Reviewed unchanged id (review_of status) action none actor now db {db' = moved}
        {row' = row'} (λ r. refl)
        (λ r legal v.
          status_moved-valid r (review_of status) now legal past_review (past r legal) v)
        (t ∙ ap (λ (r : StagedProduct). returned (moved, r)) q) in
    (
      record {
        row = r.row;
        entry = r.entry;
        found = r.found;
        legal = r.legal;
        same_id = r.same_id;
        kept_valid = r.kept_valid;
        staged_after = ap (λ (d : Db). d.staged) (sym w) ∙ r.staged_after;
        audit_after = ap (λ (d : Db). d.audit) (sym w) ∙ r.audit_after;
        entry_id = r.entry_id;
        entry_from = r.entry_from;
        entry_to = r.entry_to;
      },
      record {
        products_after =
            ap (λ (d : Db). d.products) (sym w)
            ∙ ap (λ (p : List Product). (set_product_state row'.product_id status now p).0) kept;
        status_after = at;
      },
    )

published_past :
    (s : StagedStatus)
    → can_transition s StagedStatus.published ≡ true
    → was_approved StagedStatus.published ≡ true
    → was_approved s ≡ true
published_past s h p = ground arith

unpublished_past :
    (s : StagedStatus)
    → can_transition s StagedStatus.unpublished ≡ true
    → was_approved StagedStatus.unpublished ≡ true
    → was_approved s ≡ true
unpublished_past s h p = ground arith

pub publish-returned :
    (id : ℕ) (actor : String) (now : ℕ) (db : Db) {db' : Db} {row' : StagedProduct}
    → publish id actor now db ≡ returned (db', row')
    → Reviewed id db db' row' × Shown ProductStatus.active now db db' row' × (is_text actor ≡ true)
unfolding publish
publish-returned id actor now db {db' = db'} {row' = row'} e =
    let (named, e1) = require-returned (is_text actor) _ _ e in
    let ((moved, row), t, e2) =
      bind-returned
        (transition unchanged id StagedStatus.published Action.publish none actor now db) _ e1 in
    let (shown, e3) =
      require-returned (set_product_state row.product_id ProductStatus.active now moved.products).1
        _ _ e2 in
    let (r, s) =
      product_moved ProductStatus.active Action.publish id actor now db moved db' row row' refl
        (λ r h p. published_past r.status h p) t e3 in
    (r, s, named)

pub unpublish-returned :
    (id : ℕ) (actor : String) (now : ℕ) (db : Db) {db' : Db} {row' : StagedProduct}
    → unpublish id actor now db ≡ returned (db', row')
    → Reviewed id db db' row' × Shown ProductStatus.draft now db db' row'
unfolding unpublish
unpublish-returned id actor now db {db' = db'} {row' = row'} e =
    let ((moved, row), t, e2) =
      bind-returned
        (transition unchanged id StagedStatus.unpublished Action.unpublish none actor now db) _ e in
    product_moved ProductStatus.draft Action.unpublish id actor now db moved db' row row' refl
      (λ r h p. unpublished_past r.status h p) t e2

pub archive-returned :
    (id : ℕ) (actor : String) (now : ℕ) (db : Db) {db' : Db} {row' : StagedProduct}
    → archive id actor now db ≡ returned (db', row')
    → Reviewed id db db' row' × Shown ProductStatus.archived now db db' row'
unfolding archive
archive-returned id actor now db {db' = db'} {row' = row'} e =
    let ((moved, row), t, e2) =
      bind-returned (transition unchanged id StagedStatus.archived Action.archive none actor now db)
        _ e in
    product_moved ProductStatus.archived Action.archive id actor now db moved db' row row' refl
      (λ r h p. cc) t e2
