-- ===== src/Catalogue/Products.antt =====
-- apps/backend/repositories/products.py: the operations on products. Each is one transaction on the
-- list of products; `now` is the database's clock.
use elegance_shawls.Catalogue.Inputs.{passes_checks, fits_columns}
use elegance_shawls.Catalogue.Rows.{Product, ProductStatus, Variant, is_active_status, is_archived}
use elegance_shawls.Keyset.{Key, key_less, list_page}
use elegance_shawls.Catalogue.Errors.{
  ConflictCode, RepositoryError, Result, or_raise, require, returned, ◌>>=◌, ◌>>◌,
}
use elegance_shawls.Base.{
  ◌&&◌, ◌+◌, ◌++◌, ◌==◌, Bool, List, Option, String, [], any, if◌then◌else◌, is_some, none, not,
  select, some, str_eq, true, update_where, ℕ, ◌∷◌,
}

abbrev pub find_slug : String → List Product → Option Product
find_slug slug [] = none
find_slug slug (p ∷ ps) = if str_eq p.slug slug then some p else find_slug slug ps

-- INSERT: the types of the columns, whose DataError the code lets pass, the unique slug and the CHECK
-- constraints.
unfoldable pub insert_product :
    (String → Bool) → (String → Bool) → Product → List Product → Result (List Product × Product)
unfolding passes_checks
insert_product slug_format known_category p products = do
  require (fits_columns p) RepositoryError.data_error
  require (not (is_some (find_slug p.slug products)))
      (RepositoryError.conflict ConflictCode.slug_exists)
  require (passes_checks slug_format known_category p) RepositoryError.invalid_draft
  returned (products ++ p ∷ [], p)

abbrev pub with_status : ProductStatus → ℕ → Product → Product
with_status status now p = record p { status = status; updated_at = now; revision = p.revision + 1 }

-- `set_status`; `under_review` is `_has_unpublished_review` of the product.
unfoldable pub set_status :
    Bool → ℕ → ProductStatus → Bool → ℕ → List Product → Result (List Product × Product)
set_status under_review id status enforce_review now products = do
  require (not (enforce_review && is_active_status status && under_review))
      (RepositoryError.conflict ConflictCode.review_required)
  let updated = update_where (λ p. p.id) id (λ p. true) (with_status status now) products
  row ← or_raise updated.1 RepositoryError.not_found
  returned (updated.0, row)

-- `set_state_unless_archived`: the new rows, and whether one changed.
unfoldable pub set_state_unless_archived :
    ℕ → ProductStatus → ℕ → List Product → List Product × Bool
set_state_unless_archived id status now products =
    let updated =
      update_where (λ p. p.id) id (λ p. not (is_archived p.status)) (with_status status now)
        products in
    (updated.0, is_some updated.1)

-- UPDATE variants SET stock WHERE id AND product_id.
abbrev pub stock_set : ℕ → ℕ → List Variant → List Variant
stock_set variant_id stock variants =
    (update_where (λ v. v.id) variant_id (λ v. true) (λ v. record v { stock = stock }) variants).0

abbrev pub has_variant : ℕ → Product → Bool
has_variant variant_id p = any (λ v. v.id == variant_id) p.variants

-- `set_variant_stock`: a natural number is never refused for its sign.
unfoldable pub set_variant_stock : ℕ → ℕ → ℕ → ℕ → List Product → Result (List Product × Product)
set_variant_stock id variant_id stock now products = do
  let updated =
      update_where (λ p. p.id) id (has_variant variant_id)
        (λ p. record p {
          variants = stock_set variant_id stock p.variants;
          updated_at = now;
          revision = p.revision + 1;
        })
        products
  row ← or_raise updated.1 RepositoryError.not_found
  returned (updated.0, row)

-- `list_products`: `listing` is the table in descending order of (created_at, id).
unfoldable pub list_products : Bool → ℕ → Option Key → List Product → List Product × Option Key
unfolding list_page
list_products public limit position listing =
    list_page key_less (λ p. record { created_at = p.created_at; id = p.id }) limit position
      (if public then select (λ p. is_active_status p.status) listing else listing)
