-- ===== src/Attributes/Values.antt =====
-- apps/backend/catalog/attributes.py: the class Attribute with its validation, and the attributes that
-- are derived from the catalogue's own texts.
use elegance_shawls.Base.{
  ◌&&◌, Bool, List, Option, String, [], contains, if◌then◌else◌, false, inl, inr, is_some, leb, map,
  none, not, some, sorted_set, str_eq, text_length, true, ℕ, ◌∷◌, ◌⊎◌,
}
use elegance_shawls.Query.Terms.{Vocabulary, canonical, is_color, is_material}

-- ATTRIBUTE_KEYS of apps/backend/models/relational_model.py.
abbrev pub attribute_keys : List String
attribute_keys =
    "color_name" ∷ "color_family" ∷ "fabric" ∷ "composition" ∷ "pattern" ∷ "occasion" ∷ "season"
    ∷ "style" ∷ "authenticity" ∷ []

-- ATTRIBUTE_SOURCES
abbrev pub attribute_sources : List String
attribute_sources = "visual_suggestion" ∷ "supplier_declared" ∷ "staff_approved" ∷ "imported" ∷ []

-- SOURCE_RANK
unfoldable pub source_rank : String → Option ℕ
source_rank source =
    if str_eq source "imported"
    then some 0
    else if str_eq source "visual_suggestion"
    then some 1
    else if str_eq source "supplier_declared"
    then some 2
    else if str_eq source "staff_approved"
    then some 3
    else none

-- The fields of the class Attribute; `value` is `none` where it is explicitly unknown.
pub record Attribute : Type 0 where
  pub product_id : ℕ
  pub key : String
  pub value : Option String
  pub source : String
  pub variant_id : Option ℕ
  pub model_version : Option String
  pub approved_by : Option String
  pub approved_at : Option ℕ

pub data AttributeError : Type 0 where
  unknown_key : (key : String) → AttributeError
  unknown_source : (source : String) → AttributeError
  value_length approval : AttributeError

abbrev pub value_in_bounds : Option String → Bool
value_in_bounds none = true
value_in_bounds (some t) = leb 1 (text_length t) && leb (text_length t) 200

abbrev pub bool_eq : Bool → Bool → Bool
bool_eq true b = b
bool_eq false b = not b

abbrev pub is_approved : Attribute → Bool
is_approved a = is_some a.approved_by && is_some a.approved_at

abbrev pub approval_consistent : Attribute → Bool
approval_consistent a =
    bool_eq (str_eq a.source "staff_approved") (is_approved a)
    && bool_eq (is_some a.approved_by) (is_some a.approved_at)

-- `__post_init__`: the attribute, or the ValueError.
unfoldable pub validated : Attribute → AttributeError ⊎ Attribute
validated a =
    if not (contains a.key attribute_keys)
    then inl (AttributeError.unknown_key a.key)
    else if not (contains a.source attribute_sources)
    then inl (AttributeError.unknown_source a.source)
    else if not (value_in_bounds a.value)
    then inl AttributeError.value_length
    else if not (approval_consistent a)
    then inl AttributeError.approval
    else inr a

-- The only member of a set.
abbrev pub only_member : List String → Option String
only_member [] = none
only_member (t ∷ []) = some t
only_member (t ∷ u ∷ us) = none

-- `_only`; `found` is what `vocab.canonical` finds in the text, with repetitions.
unfoldable pub only_value : List String → Option String
unfolding sorted_set
only_value found = only_member (sorted_set found)

-- IMPORTED_VERSION
abbrev pub imported_version : String
imported_version = "catalog-vocab-1"

abbrev pub imported : ℕ → String → Option String → Option ℕ → Attribute
imported product_id key value variant_id = record {
  product_id = product_id;
  key = key;
  value = value;
  source = "imported";
  variant_id = variant_id;
  model_version = some imported_version;
  approved_by = none;
  approved_at = none;
}

-- `derive_attributes`
unfoldable pub derive_attributes :
    (String → List String)
    → Vocabulary
    → ℕ
    → Option String
    → List (ℕ × Option String)
    → List Attribute
unfolding only_value
derive_attributes tokenize vocab product_id material variants =
    imported product_id "fabric" (only_value (canonical tokenize vocab is_material material)) none
    ∷ map
        (λ (v : ℕ × Option String).
          imported product_id "color_name" (only_value (canonical tokenize vocab is_color v.1))
            (some v.0))
        variants
