-- ===== src/Embeddings/Representation.antt =====
-- apps/backend/search/representations.py: the text of a product or variant that is embedded. Of Python
-- and its libraries, `normalize` is the Unicode normalisation of apps/backend/catalog/query.py,
-- `is_control` is a character's category, `split` is `str.split`, and `sha256` is the hash in hexadecimal.
use elegance_shawls.Base.{
  ◌&&◌, ◌++◌, ◌<>◌, Bool, List, Option, String, [], contains, if◌then◌else◌, inl, inr, is_text,
  joined, ltb, map, none, not, select, some, sorted_set, str_eq, text_length, ℕ, ◌∷◌, ◌⊎◌,
}
use Prim.Native.Char.{Char}
use elegance_shawls.Attributes.Values.{attribute_keys}
use elegance_shawls.Attributes.Rows.{CatalogAttribute}

-- REPRESENTATION_VERSION
abbrev pub representation_version : String
representation_version = "catalog-text-v1"

-- MAX_CHARS
abbrev pub max_chars : ℕ
max_chars = 4000

-- APPROVED_SOURCES
abbrev pub approved_sources : List String
approved_sources = "staff_approved" ∷ "supplier_declared" ∷ "imported" ∷ []

pub data Kind : Type 0 where
  product variant : Kind

abbrev pub kind_name : Kind → String
kind_name Kind.product = "product"
kind_name Kind.variant = "variant"

pub record Representation : Type 0 where
  pub kind : Kind
  pub version : String
  pub text : String
  pub sha256 : String

-- The ValueErrors.
pub data Unrepresentable : Type 0 where
  unknown_key : (key : String) → Unrepresentable
  too_long : (characters : ℕ) → Unrepresentable
  no_name : Unrepresentable

abbrev pub Represented : Type 0
Represented = Unrepresentable ⊎ Representation

-- Controls become spaces.
abbrev pub blanked : (Char → Bool) → String → String
blanked is_control String.[] = String.[]
blanked is_control (String.◌∷◌ c t) =
    String.◌∷◌ (if is_control c then " " else c) (blanked is_control t)

abbrev pub text_or_empty : Option String → String
text_or_empty none = ""
text_or_empty (some t) = t

abbrev pub unknown_keys : List CatalogAttribute → List String
unknown_keys [] = []
unknown_keys (a ∷ others) =
    let rest = unknown_keys others in if contains a.key attribute_keys then rest else a.key ∷ rest

abbrev pub line_of : String → List String → List String
line_of key [] = []
line_of key (v ∷ vs) = ("attr." <> key <> ": " <> joined "; " (v ∷ vs)) ∷ []

module _ (normalize : String → String) (is_control : Char → Bool) (split : String → List String)
    (sha256 : String → String) where
  unfoldable pub clean : Option String → String
  clean value = joined " " (split (blanked is_control (normalize (text_or_empty value))))

  -- An attribute whose cleaned value is in the text.
  unfoldable pub is_used : CatalogAttribute → Bool
  unfolding clean
  is_used a = is_text (clean a.value) && contains a.source approved_sources

  -- The cleaned values of a key, as the set of it.
  unfoldable pub values_of : String → List CatalogAttribute → List String
  unfolding is_used
  values_of key attributes =
      sorted_set (map (λ a. clean a.value) (select (λ a. is_used a && str_eq a.key key) attributes))

  unfoldable pub lines_of : List String → List CatalogAttribute → List String
  unfolding values_of
  lines_of [] attributes = []
  lines_of (key ∷ keys) attributes =
      line_of key (values_of key attributes) ++ lines_of keys attributes

  -- `_attributes`
  unfoldable pub attribute_lines : List CatalogAttribute → Unrepresentable ⊎ List String
  unfolding lines_of
  attribute_lines attributes = elim (unknown_keys attributes) [
    | [] ↦ inr (lines_of attribute_keys attributes)
    | key ∷ keys ↦ inl (Unrepresentable.unknown_key key)
  ]

  unfoldable pub field_lines : List (String × Option String) → List String
  unfolding clean
  field_lines [] = []
  field_lines (f ∷ fs) =
      let rest = field_lines fs in
      let text = clean f.1 in if is_text text then (f.0 <> ": " <> text) ∷ rest else rest

  -- The text of the lines, if it is not too long.
  unfoldable pub within_limit : Kind → String → Represented
  within_limit kind text =
      if ltb max_chars (text_length text)
      then inl (Unrepresentable.too_long (text_length text))
      else inr (record {
        kind = kind;
        version = representation_version;
        text = text;
        sha256 = sha256 (representation_version <> "\n" <> text);
      })

  -- `_build`
  unfoldable pub build : Kind → List (String × Option String) → List CatalogAttribute → Represented
  unfolding attribute_lines within_limit
  build kind fields attributes = elim (attribute_lines attributes) [
    | inl error ↦ inl error
    | inr lines ↦
        within_limit kind
          (joined "\n" ((("type: " <> kind_name kind) ∷ field_lines fields) ++ lines))
  ]

  unfoldable pub product_representation :
      String → Option String → Option String → Option String → List CatalogAttribute → Represented
  unfolding build
  product_representation name category material description attributes =
      if not (is_text (clean (some name)))
      then inl Unrepresentable.no_name
      else build Kind.product
          (("name", some name)
            ∷ ("category", category)
            ∷ ("material", material)
            ∷ ("description", description)
            ∷ [])
          attributes

  unfoldable pub variant_representation :
      String
      → Option String
      → Option String
      → Option String
      → Option String
      → List CatalogAttribute
      → Represented
  unfolding build
  variant_representation product_name variant_name color category material attributes =
      if not (is_text (clean (some product_name)))
      then inl Unrepresentable.no_name
      else build Kind.variant
          (("product", some product_name)
            ∷ ("category", category)
            ∷ ("material", material)
            ∷ ("variant", variant_name)
            ∷ ("color", color)
            ∷ [])
          attributes
