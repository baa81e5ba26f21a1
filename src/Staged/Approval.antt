-- ===== src/Staged/Approval.antt =====
-- apps/backend/repositories/staged.py: what an approval that succeeds has checked and written.
use mathlib.Core.Path.{subst}
use elegance_shawls.Staged.Reviews.{ok_inj}
use elegance_shawls.Catalogue.Created.{insert_product-returned, new_product-returned}
use elegance_shawls.Catalogue.Products.{insert_product}
use elegance_shawls.Catalogue.Errors.{
  StagedStatus, bind-returned, or_raise-returned, require-returned, returned,
}
use elegance_shawls.Staged.Steps.{Reviewed, RowIsValid}
use elegance_shawls.Catalogue.Inputs.{ProductInput, new_product}
use elegance_shawls.Catalogue.Rows.{Product, ProductStatus}
use elegance_shawls.Staged.Review.{Creation, approve, approved_row, draft_to_input}
use elegance_shawls.Staged.Rows.{
  Action, StagedProduct, StagedProductDraft, can_transition, find_staged, Db,
}
use elegance_shawls.Base.{
  ◌++◌, String, [], arith, none, refl, replace, some, sym, true, ℕ, ◌∙◌, ◌∷◌, ◌≡◌, ap,
}

approved-valid :
    (row : StagedProduct) (product_id price stock now : ℕ)
    → RowIsValid (approved_row product_id price stock now row)
approved-valid row product_id price stock now = record {
  product_known = λ h. refl;
  price_known = λ h. refl;
  stock_known = λ h. refl;
  reason_known = λ h. absurd (ground arith);
  product_absent = λ h. absurd (ground arith);
}

draft_to_input-returned :
    (draft : StagedProductDraft) (price stock : ℕ) {input : ProductInput}
    → draft_to_input draft price stock ≡ returned input
    → input.status ≡ ProductStatus.draft
unfolding draft_to_input
draft_to_input-returned draft price stock e = ground arith

pub approve-returned :
    (creation : Creation) (id price stock : ℕ) (actor : String) (now : ℕ) (db : Db) {db' : Db}
    {row' : StagedProduct}
    → approve creation id price stock actor now db ≡ returned (db', row')
    → Reviewed id db db' row'
      × (created : Product) × (db'.products ≡ db.products ++ created ∷ [])
      × (row'.product_id ≡ some created.id)
      × (created.id ≡ creation.product_id)
      × (created.status ≡ ProductStatus.draft)
unfolding approve
approve-returned creation id price stock actor now db {db' = db'} {row' = row'} e =
    let (row, found, e1) = or_raise-returned (find_staged id db) _ _ e in
    let (legal, e2) = require-returned (can_transition row.status StagedStatus.approved) _ _ e1 in
    let (input, drafted, e3) = bind-returned (draft_to_input row.product price stock) _ e2 in
    let (product, made, e4) =
      bind-returned (new_product creation.upper creation.product_id creation.variant_ids now input)
        _ e3 in
    let ((products, created), stored, e5) =
      bind-returned
        (insert_product creation.slug_format creation.known_category product db.products) _ e4 in
    let (p, q) = ok_inj e5 in
    let (id_drawn, status_given) =
      new_product-returned creation.upper creation.product_id creation.variant_ids now input made in
    let (appended, same) =
      insert_product-returned creation.slug_format creation.known_category product db.products
        stored in
    let is_draft : created.status ≡ ProductStatus.draft =
      ap (λ (p : Product). p.status) same
      ∙ status_given
      ∙ draft_to_input-returned row.product price stock drafted in
    (
      record {
        row = row;
        entry = record {
          staged_product_id = id;
          action = Action.approve;
          from_status = some row.status;
          to_status = some StagedStatus.approved;
          actor = actor;
          note = none;
        };
        found = found;
        legal = subst (λ (r : StagedProduct). can_transition row.status r.status ≡ true) q legal;
        same_id = ap (λ (r : StagedProduct). r.id) (sym q);
        kept_valid = λ v. subst RowIsValid q (approved-valid row created.id price stock now);
        staged_after =
            subst (λ (r : StagedProduct). db'.staged ≡ replace (λ k. k.id) r.id r db.staged) q
              (ap (λ (d : Db). d.staged) (sym p));
        audit_after = ap (λ (d : Db). d.audit) (sym p);
        entry_id = refl;
        entry_from = refl;
        entry_to = ap (λ (r : StagedProduct). some r.status) q;
      },
      created,
      ap (λ (d : Db). d.products) (sym p)
          ∙ appended
          ∙ ap (λ (c : Product). db.products ++ c ∷ []) (sym same),
      ap (λ (r : StagedProduct). r.product_id) (sym q),
      ap (λ (c : Product). c.id) same ∙ id_drawn,
      is_draft,
    )
