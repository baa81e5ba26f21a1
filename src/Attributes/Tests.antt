-- ===== src/Attributes/Tests.antt =====
-- Runs of the attribute operations, and the theorems at a concrete table.
use elegance_shawls.Attributes.Again.{upsert_attributes-again}
use elegance_shawls.Attributes.Latest.{Unrepeated, entry_of, last_of, upsert_attributes-latest}
use elegance_shawls.Attributes.Trust.{Trusted, upsert_attributes-Trusted}
use elegance_shawls.Base.{List, Option, String, [], inl, inr, none, refl, some, ℕ, ◌∷◌, ◌≡◌}
use elegance_shawls.Attributes.Rows.{
  CatalogAttributes, Slot, differs, inserted, lookup, outranks, put, put_each, upsert_attributes,
}
use elegance_shawls.Attributes.Values.{Attribute, AttributeError, imported_version, validated}

abbrev fabric : String → String → Option String → Option ℕ → Attribute
fabric value source by at = record {
  product_id = 1;
  key = "fabric";
  value = some value;
  source = source;
  variant_id = none;
  model_version = none;
  approved_by = by;
  approved_at = at;
}

abbrev color : ℕ → String → Attribute
color variant value = record {
  product_id = 1;
  key = "color_name";
  value = some value;
  source = "imported";
  variant_id = some variant;
  model_version = some imported_version;
  approved_by = none;
  approved_at = none;
}

abbrev approved_silk : Attribute
approved_silk = fabric "silk" "staff_approved" (some "ana") (some 5)

abbrev seen_wool : Attribute
seen_wool = fabric "wool" "visual_suggestion" none none

silk_valid : validated approved_silk ≡ inr approved_silk
unfolding validated
silk_valid = refl

unapproved_silk : validated (fabric "silk" "staff_approved" none none) ≡ inl AttributeError.approval
unfolding validated
unapproved_silk = refl

abbrev stored : CatalogAttributes
stored = inserted 7 5 approved_silk ∷ []

abbrev batch : List Attribute
batch = color 3 "red" ∷ seen_wool ∷ color 3 "blue" ∷ []

-- The approved value stays, and of the two colours the last is inserted.
one_inserted :
    upsert_attributes (λ n. n) 9 batch stored
    ≡ (inserted 7 5 approved_silk ∷ inserted 1 9 (color 3 "blue") ∷ [], 1)
unfolding upsert_attributes put outranks differs
one_inserted = refl

upsert_attributes-latest_example :
    (written : List Attribute) × (upsert_attributes (λ n. n) 9 batch stored
      ≡ put_each (λ n. n) 9 written stored)
    × Unrepeated written
    × ((k : Attribute) → entry_of k written ≡ last_of k batch)
upsert_attributes-latest_example = upsert_attributes-latest (λ n. n) 9 batch stored

upsert_attributes-Trusted_example :
    Trusted
      (Slot.of_product 1 "fabric")
      (inserted 7 5 approved_silk)
      (upsert_attributes (λ n. n) 9 batch stored).0
unfolding lookup
upsert_attributes-Trusted_example =
    upsert_attributes-Trusted (λ n. n) 9 batch (Slot.of_product 1 "fabric") stored
      (inserted 7 5 approved_silk) refl

upsert_attributes-again_example :
    upsert_attributes (λ n. n) 20 batch (upsert_attributes (λ n. n) 9 batch stored).0
    ≡ ((upsert_attributes (λ n. n) 9 batch stored).0, 0)
upsert_attributes-again_example =
    upsert_attributes-again (λ v. 1) (λ n. n) (λ n. n) 9 20 batch stored (refl, (tt, (refl, tt)))
