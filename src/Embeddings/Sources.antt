-- ===== src/Embeddings/Sources.antt =====
-- apps/backend/search/embedding_service.py: the public source of an embedding row, and whether a row
-- still matches it. The representation functions are those of a fixed Unicode normalisation and hash.
use elegance_shawls.Embeddings.Representation.{
  Kind, Representation, Represented, Unrepresentable, product_representation,
  variant_representation,
}
use elegance_shawls.Embeddings.Rows.{
  EmbeddingRow, EmbeddingRows, Identity, is_succeeded, same_version, upsert_pending,
}
use elegance_shawls.Base.{
  ◌&&◌, ◌==◌, Bool, List, Option, String, [], if◌then◌else◌, false, find, inl, inr, none, select,
  some, str_eq, true, ℕ, ◌∷◌, ◌⊎◌,
}
use Prim.Native.Char.{Char}
use elegance_shawls.Catalogue.Rows.{Product, Variant, is_active_status}
use elegance_shawls.Attributes.Rows.{CatalogAttribute, CatalogAttributes, id_opt_eq}
use elegance_shawls.Embeddings.Provider.{EmbeddingProvider}

-- What a session reads of the catalogue.
pub record Catalogue : Type 0 where
  pub products : List Product
  pub attributes : CatalogAttributes

pub record Source : Type 0 where
  pub product_id : ℕ
  pub revision : ℕ
  pub representation : Representation

abbrev pub with_variant : ℕ → Product → Option (Product × Variant)
with_variant id p = elim (find (λ v. v.id) id p.variants) [
  | none ↦ none
  | some v ↦ if is_active_status p.status && v.is_active then some (p, v) else none
]

-- The join of the variant with its product; both must be public.
unfoldable pub public_variant : ℕ → List Product → Option (Product × Variant)
public_variant id [] = none
public_variant id (p ∷ ps) =
    let rest = public_variant id ps in
    elim (with_variant id p) [ none ↦ rest | some found ↦ some found ]

unfoldable pub public_product : ℕ → List Product → Option Product
public_product id products = elim (find (λ p. p.id) id products) [
  | none ↦ none
  | some p ↦ if is_active_status p.status then some p else none
]

-- The product's attributes of this variant, or its own.
abbrev pub attributes_of : ℕ → Option ℕ → CatalogAttributes → List CatalogAttribute
attributes_of product_id wanted attributes =
    select (λ a. a.product_id == product_id && id_opt_eq a.variant_id wanted) attributes

-- What `load_source` returns or raises.
abbrev pub Loaded : Type 0
Loaded = Unrepresentable ⊎ Option Source

unfoldable pub source_of : ℕ → ℕ → Represented → Loaded
source_of product_id revision (inl error) = inl error
source_of product_id revision (inr representation) = inr (
    some (record { product_id = product_id; revision = revision; representation = representation }))

-- provider_identity(provider) == {…of the row…}
abbrev pub same_provider : EmbeddingProvider → Identity → Bool
same_provider provider key =
    str_eq provider.name key.provider
    && str_eq provider.model key.model
    && str_eq provider.model_revision key.model_revision

-- `_key`
abbrev pub key_of : Source → EmbeddingProvider → String → Identity
key_of source provider index_version = record {
  source_revision = source.revision;
  representation_version = source.representation.version;
  representation_hash = source.representation.sha256;
  provider = provider.name;
  model = provider.model;
  model_revision = provider.model_revision;
  index_version = index_version;
}

-- `_matches`
unfoldable pub is_match : Option Source → EmbeddingRow → Bool
is_match none row = false
is_match (some source) row =
    source.revision == row.identity.source_revision
    && str_eq source.representation.sha256 row.identity.representation_hash
    && str_eq source.representation.version row.identity.representation_version

module _ (normalize : String → String) (is_control : Char → Bool) (split : String → List String)
    (sha256 : String → String) where
  unfoldable pub load_source : Kind → ℕ → Catalogue → Loaded
  unfolding public_product public_variant source_of product_representation variant_representation
  load_source Kind.product owner_id catalogue = elim (public_product owner_id catalogue.products) [
    | none ↦ inr none
    | some p ↦ source_of p.id p.revision (
        product_representation normalize is_control split sha256 p.name (some p.category) p.material
          p.main_description (attributes_of p.id none catalogue.attributes))
  ]
  load_source Kind.variant owner_id catalogue = elim (public_variant owner_id catalogue.products) [
    | none ↦ inr none
    | some (p, v) ↦ source_of p.id p.revision (
        variant_representation normalize is_control split sha256 p.name (some v.name) v.color
          (some p.category) p.material (attributes_of p.id (some owner_id) catalogue.attributes))
  ]

  -- `ensure_pending`: the table with the row and whether it is new, or the ValueError.
  unfoldable pub ensure_pending :
      Kind
      → ℕ
      → EmbeddingProvider
      → String
      → ℕ
      → ℕ
      → ℕ
      → Catalogue
      → EmbeddingRows
      → Unrepresentable ⊎ (EmbeddingRows × Option EmbeddingRow × Bool)
  unfolding load_source upsert_pending
  ensure_pending kind owner_id provider index_version attempts_limit id now catalogue rows =
      elim (load_source kind owner_id catalogue) [
        | inl error ↦ inl error
        | inr none ↦ inr (rows, none, false)
        | inr (some source) ↦
            let (rows', row, created) =
              upsert_pending id owner_id source.product_id (key_of source provider index_version)
                attempts_limit now rows in
            inr (rows', some row, created)
      ]

  unfoldable pub is_live : Kind → Catalogue → EmbeddingRow → Bool
  unfolding load_source is_match
  is_live kind catalogue row = elim (load_source kind row.owner_id catalogue) [
    | inl error ↦ false
    | inr source ↦ is_match source row
  ]

  -- `repo.active_select`: succeeded, of the active version and the product's revision, and public.
  unfoldable pub is_candidate : Kind → Identity → Catalogue → EmbeddingRow → Bool
  unfolding public_variant
  is_candidate kind version catalogue row =
      is_succeeded row.status
      && elim (find (λ p. p.id) row.product_id catalogue.products) [
        | none ↦ false
        | some p ↦
            p.revision == row.identity.source_revision && is_active_status p.status && elim kind [
              | Kind.product ↦ true
              | Kind.variant ↦ elim (find (λ v. v.id) row.owner_id p.variants) [
                | none ↦ false
                | some v ↦ v.is_active
              ]
            ]
      ]
      && same_version row.identity version

  -- `active_embeddings`
  unfoldable pub active_embeddings : Kind → Identity → Catalogue → EmbeddingRows → List EmbeddingRow
  unfolding is_candidate is_live
  active_embeddings kind version catalogue rows =
      select (is_live kind catalogue) (select (is_candidate kind version catalogue) rows)
