-- ===== src/Staged/Tests.antt =====
-- Runs of the staging and review operations, and the theorems at concrete databases.
use elegance_shawls.Catalogue.Samples.{shawl}
use elegance_shawls.Catalogue.Products.{set_state_unless_archived, with_status}
use elegance_shawls.Staged.Review.{approved_row, publish, set_product_state, transition}
use elegance_shawls.Staged.Steps.{apply, Op}
use elegance_shawls.Base.{String, [], find, none, refl, replace, some, update_where, ◌∷◌, ◌≡◌}
use elegance_shawls.Staged.Rows.{StagedProduct, StagedProductDraft, find_product, find_staged, Db}
use elegance_shawls.Staged.Staging.{
  Scraped, dedupe_key_of, find_dedupe, new_staged, restage, stage_product,
}
use elegance_shawls.Catalogue.Errors.{RepositoryError, StagedStatus, raised}
use elegance_shawls.Catalogue.Rows.{ProductStatus}
use elegance_shawls.Staged.Validity.{IsValidDb, Reach, Reach-IsValidDb}
use elegance_shawls.Staged.Visibility.{IsPublic, apply-IsPublic}
use elegance_shawls.Staged.Audit.{Audited, apply-Audited}

abbrev plain : String → String
plain text = text

abbrev draft : StagedProductDraft
draft = record {
  name = some "Shawl";
  slug = some "shawl";
  cover_image_url = some "b.jpg";
  images = some ("b.jpg" ∷ []);
  main_description = none;
  category = none;
  material = none;
  sizing = none;
  weight = none;
  variants = some [];
}

abbrev scraped : Scraped
scraped = record {
  source_id = "primary";
  source_name = "Primary";
  source_url = "/products/a";
  source_product_id = some "a1";
  source_content_hash = "h1";
  fetched_at = 40;
  ingestion_job_id = none;
  source_price = none;
  source_currency = none;
  product = draft;
  source_attributes = "{}";
  missing_fields = "price" ∷ "stock" ∷ [];
}

abbrev empty_db : Db
empty_db = record { staged = []; audit = []; products = [] }

abbrev waiting : Db
waiting = record empty_db { staged = new_staged 1 50 scraped ∷ [] }

abbrev approved : Db
approved = record {
  staged = approved_row 9 5000 2 60 (new_staged 1 50 scraped) ∷ [];
  audit = [];
  products = shawl 9 60 ProductStatus.draft ∷ [];
}

-- The same content again changes nothing.
staged_again : (stage_product 2 70 scraped waiting).0 ≡ waiting
unfolding stage_product restage find_dedupe dedupe_key_of
staged_again = refl

publish_twice :
    publish 1 "ann" 80 (apply plain (Op.publish_row 1 "ann" 70) approved)
    ≡ raised (RepositoryError.invalid_transition StagedStatus.published StagedStatus.published)
unfolding apply publish transition set_product_state set_state_unless_archived update_where find
    replace
publish_twice = refl

Reach-IsValidDb_example : IsValidDb (
    apply plain
      (Op.reject_row 1 "bad photo" "ann" 60)
      (apply plain (Op.stage 1 50 scraped) empty_db))
unfolding find
Reach-IsValidDb_example = Reach-IsValidDb plain (
    Reach.next (Op.reject_row 1 "bad photo" "ann" 60)
      (Reach.next (Op.stage 1 50 scraped) Reach.start refl) tt)

apply-Audited_example :
    (r' : StagedProduct) × (find_staged 1
        (apply plain (Op.reject_row 1 "bad photo" "ann" 60) waiting)
      ≡ some r')
    × Audited waiting
        (apply plain (Op.reject_row 1 "bad photo" "ann" 60) waiting)
        1
        (new_staged 1 50 scraped)
        r'
unfolding find
apply-Audited_example =
    apply-Audited plain (Op.reject_row 1 "bad photo" "ann" 60) waiting 1 (refl, tt) refl

shown :
    find_product 9 (apply plain (Op.publish_row 1 "ann" 70) approved)
    ≡ some (with_status ProductStatus.active 70 (shawl 9 60 ProductStatus.draft))
unfolding apply publish transition set_product_state set_state_unless_archived update_where find
    replace
shown = refl

apply-IsPublic_example :
    IsPublic approved
      (apply plain (Op.publish_row 1 "ann" 70) approved)
      9
      (Op.publish_row 1 "ann" 70)
apply-IsPublic_example = apply-IsPublic plain (Op.publish_row 1 "ann" 70) approved 9 shown refl
