-- ===== src/Staged/Review.antt =====
-- apps/backend/repositories/staged.py: the review actions. Each runs in one savepoint under a row
-- lock, so it is one step on the database; `now` is the clock.
use elegance_shawls.Catalogue.Products.{insert_product, set_state_unless_archived}
use elegance_shawls.Catalogue.Inputs.{ProductInput, VariantInput, new_product}
use elegance_shawls.Catalogue.Rows.{Product, ProductStatus}
use elegance_shawls.Catalogue.Errors.{
  ConflictCode, RepositoryError, Result, StagedStatus, or_raise, require, returned, ◌>>=◌, ◌>>◌,
}
use elegance_shawls.Base.{
  Bool, List, Option, String, [], if◌then◌else◌, false, is_text, leb, none, not, select, some,
  str_eq, text_length, true, ◌||◌, ℕ, ◌∷◌,
}
use elegance_shawls.Staged.Rows.{
  Action, AuditEntry, StagedProduct, StagedProductDraft, StagedVariant, can_transition, find_staged,
  record_change, Db,
}

-- `transition`: the workflow is checked from the current status; `set_fields` are the other columns.
unfoldable pub transition :
    (StagedProduct → StagedProduct)
    → ℕ
    → StagedStatus
    → Action
    → Option String
    → String
    → ℕ
    → Db
    → Result (Db × StagedProduct)
transition set_fields id target action note actor now db = do
  row ← or_raise (find_staged id db) RepositoryError.not_found
  require (can_transition row.status target) (RepositoryError.invalid_transition row.status target)
  let changed = record (set_fields row) { status = target; updated_at = now }
  let entry : AuditEntry = record {
    staged_product_id = id;
    action = action;
    from_status = some row.status;
    to_status = some target;
    actor = actor;
    note = note;
  }
  returned (record_change changed entry db, changed)

abbrev pub with_reason : String → StagedProduct → StagedProduct
with_reason reason row = record row { rejection_reason = some reason }

-- `reject`; `strip` is Python's `str.strip`.
unfoldable pub reject :
    (String → String) → ℕ → String → String → ℕ → Db → Result (Db × StagedProduct)
unfolding transition
reject strip id reason actor now db = do
  require (leb 3 (text_length (strip reason))) RepositoryError.invalid_draft
  transition (with_reason (strip reason)) id StagedStatus.rejected Action.reject
      (some (strip reason)) actor now db

abbrev pub or_default : Option String → String → String
or_default none d = d
or_default (some t) d = if is_text t then t else d

abbrev pub none_missing : List String → List String
none_missing fields = select (λ f. not (str_eq f "price" || str_eq f "stock")) fields

-- The variants of `_draft_to_input`: a missing name or image is an error.
unfoldable pub variant_inputs : ℕ → ℕ → List StagedVariant → Result (List VariantInput)
variant_inputs price stock [] = returned []
variant_inputs price stock (v ∷ vs) = do
  name ← or_raise v.name RepositoryError.invalid_draft
  image ← or_raise v.image_url RepositoryError.invalid_draft
  rest ← variant_inputs price stock vs
  returned (
      record {
        name = name;
        image_url = image;
        price = price;
        stock = stock;
        color = v.color;
        size = or_default v.size "Free Size";
        currency = "PKR";
        description = none;
        id = none;
      }
      ∷ rest)

-- `_draft_to_input`: always a draft product.
unfoldable pub draft_to_input : StagedProductDraft → ℕ → ℕ → Result ProductInput
unfolding variant_inputs
draft_to_input draft price stock = do
  drafted ← or_raise draft.variants RepositoryError.invalid_draft
  variants ← variant_inputs price stock drafted
  name ← or_raise draft.name RepositoryError.invalid_draft
  slug ← or_raise draft.slug RepositoryError.invalid_draft
  cover ← or_raise draft.cover_image_url RepositoryError.invalid_draft
  returned (record {
    slug = slug;
    name = name;
    cover_image_url = cover;
    variants = variants;
    price = some price;
    category = elim draft.category [ none ↦ "shawls" | some c ↦ c ];
    status = ProductStatus.draft;
    images = elim draft.images [ none ↦ [] | some i ↦ i ];
    main_description = draft.main_description;
    currency = "PKR";
    material = draft.material;
    sizing = draft.sizing;
    weight = draft.weight;
    item_number = none;
  })

-- What the database and Python supply to the creation of a product: the constraints' regular
-- expression and category list, `upper`, and the drawn primary keys.
pub record Creation : Type 0 where
  pub slug_format : String → Bool
  pub known_category : String → Bool
  pub upper : String → String
  pub product_id : ℕ
  pub variant_ids : ℕ → ℕ

-- The columns that `approve` sets.
abbrev pub approved_row : ℕ → ℕ → ℕ → ℕ → StagedProduct → StagedProduct
approved_row product_id price stock now row = record row {
  status = StagedStatus.approved;
  product_id = some product_id;
  stock_known = true;
  approved_price = some price;
  approved_stock = some stock;
  missing_fields = none_missing row.missing_fields;
  updated_at = now;
}

-- `approve`; prices and stocks are natural numbers, so the test for a negative one never fires.
unfoldable pub approve : Creation → ℕ → ℕ → ℕ → String → ℕ → Db → Result (Db × StagedProduct)
approve creation id price stock actor now db = do
  row ← or_raise (find_staged id db) RepositoryError.not_found
  require (can_transition row.status StagedStatus.approved)
      (RepositoryError.invalid_transition row.status StagedStatus.approved)
  input ← draft_to_input row.product price stock
  product ← new_product creation.upper creation.product_id creation.variant_ids now input
  (products, created) ←
      insert_product creation.slug_format creation.known_category product db.products
  let changed = approved_row created.id price stock now row
  let entry : AuditEntry = record {
    staged_product_id = id;
    action = Action.approve;
    from_status = some row.status;
    to_status = some StagedStatus.approved;
    actor = actor;
    note = none;
  }
  returned (record (record_change changed entry db) { products = products }, changed)

abbrev pub unchanged : StagedProduct → StagedProduct
unchanged row = row

-- The state of the row's product, unless there is none or it is archived.
unfoldable pub set_product_state : Option ℕ → ProductStatus → ℕ → List Product → List Product × Bool
unfolding set_state_unless_archived
set_product_state none status now products = (products, false)
set_product_state (some i) status now products = set_state_unless_archived i status now products

-- `publish`: a missing or archived product undoes the whole step.
unfoldable pub publish : ℕ → String → ℕ → Db → Result (Db × StagedProduct)
publish id actor now db = do
  require (is_text actor) (RepositoryError.conflict ConflictCode.conflict)
  (moved, row) ← transition unchanged id StagedStatus.published Action.publish none actor now db
  let shown = set_product_state row.product_id ProductStatus.active now moved.products
  require shown.1 RepositoryError.product_unavailable
  returned (record moved { products = shown.0 }, row)

unfoldable pub unpublish : ℕ → String → ℕ → Db → Result (Db × StagedProduct)
unpublish id actor now db = do
  (moved, row) ← transition unchanged id StagedStatus.unpublished Action.unpublish none actor now db
  let hidden = set_product_state row.product_id ProductStatus.draft now moved.products
  returned (record moved { products = hidden.0 }, row)

unfoldable pub archive : ℕ → String → ℕ → Db → Result (Db × StagedProduct)
archive id actor now db = do
  (moved, row) ← transition unchanged id StagedStatus.archived Action.archive none actor now db
  let retired = set_product_state row.product_id ProductStatus.archived now moved.products
  returned (record moved { products = retired.0 }, row)
