-- ===== src/Catalogue/Inputs.antt =====
-- apps/backend/repositories/products.py: the inputs of the product operations, and the columns that
-- they become. `upper` is Python's `str.upper`.
use elegance_shawls.Catalogue.Errors.{RepositoryError, Result, raised, returned}
use elegance_shawls.Catalogue.Rows.{Product, ProductStatus, Variant}
use elegance_shawls.Base.{
  ◌&&◌, Bool, List, Option, String, [], all, contains, if◌then◌else◌, leb, length, min, none, some,
  suc, text_length, true, ℕ, ◌∷◌,
}

pub record VariantInput : Type 0 where
  pub name : String
  pub image_url : String
  pub price : ℕ
  pub stock : ℕ
  pub color : Option String
  pub size : String
  pub currency : String
  pub description : Option String
  pub id : Option ℕ

pub record ProductInput : Type 0 where
  pub slug : String
  pub name : String
  pub cover_image_url : String
  pub variants : List VariantInput
  pub price : Option ℕ
  pub category : String
  pub status : ProductStatus
  pub images : List String
  pub main_description : Option String
  pub currency : String
  pub material : Option String
  pub sizing : Option String
  pub weight : Option String
  pub item_number : Option String

-- min(v.price for v in variants), of a first variant and the others.
abbrev pub cheapest : VariantInput → List VariantInput → ℕ
cheapest v [] = v.price
cheapest v (w ∷ ws) = min v.price (cheapest w ws)

-- The images, the cover first if it is not among them.
unfoldable pub listed_images : String → List String → List String
listed_images cover [] = cover ∷ []
listed_images cover (i ∷ is) = if contains cover (i ∷ is) then i ∷ is else cover ∷ i ∷ is

-- `_variant`
abbrev pub new_variant : (String → String) → ℕ → ℕ → VariantInput → Variant
new_variant upper id position v = record {
  id = id;
  position = position;
  name = v.name;
  color = v.color;
  size = v.size;
  image_url = v.image_url;
  price = v.price;
  currency = upper v.currency;
  stock = v.stock;
  description = v.description;
  is_active = true;
}

-- The variants in the submitted order; `draw` are the primary keys that the database draws.
unfoldable pub new_variants : (String → String) → (ℕ → ℕ) → ℕ → List VariantInput → List Variant
new_variants upper draw position [] = []
new_variants upper draw position (v ∷ vs) =
    new_variant upper (draw position) position v ∷ new_variants upper draw (suc position) vs

-- `_columns` and the row of `create_product`.
unfoldable pub new_product : (String → String) → ℕ → (ℕ → ℕ) → ℕ → ProductInput → Result Product
unfolding listed_images new_variants
new_product upper id draw now input = elim input.variants [
  | [] ↦ raised RepositoryError.invalid_draft
  | v ∷ vs ↦ returned (record {
    id = id;
    slug = input.slug;
    name = input.name;
    category = input.category;
    status = input.status;
    cover_image_url = input.cover_image_url;
    images = listed_images input.cover_image_url input.images;
    main_description = input.main_description;
    price = elim input.price [ none ↦ cheapest v vs | some p ↦ p ];
    currency = upper input.currency;
    material = input.material;
    sizing = input.sizing;
    weight = input.weight;
    item_number = input.item_number;
    revision = 1;
    created_at = now;
    updated_at = now;
    variants = new_variants upper draw 0 (v ∷ vs);
  })
]

abbrev pub shorter : ℕ → Option String → Bool
shorter n none = true
shorter n (some t) = leb (text_length t) n

abbrev pub not_empty : Option String → Bool
not_empty none = true
not_empty (some t) = leb 1 (text_length t)

-- The type Integer of the columns for prices and stocks, of 32 bits, and CHAR(3) of the currencies.
abbrev pub max_integer : ℕ
max_integer = 2147483647

abbrev pub fits_columns : Product → Bool
fits_columns p =
    leb p.price max_integer
    && leb (text_length p.currency) 3
    && all
        (λ v.
          leb v.price max_integer && (leb v.stock max_integer && leb (text_length v.currency) 3))
        p.variants

-- The CHECK constraints of the products and variants tables; `slug_format` is its regular expression, and
-- `known_category` the list of categories.
unfoldable pub passes_checks : (String → Bool) → (String → Bool) → Product → Bool
passes_checks slug_format known_category p =
    slug_format p.slug
    && leb (text_length p.slug) 180
    && leb 1 (text_length p.name)
    && leb (text_length p.name) 160
    && known_category p.category
    && leb (length p.images) 12
    && shorter 5000 p.main_description
    && shorter 200 p.material
    && shorter 200 p.sizing
    && shorter 100 p.weight
    && shorter 100 p.item_number
    && all (λ v. leb 1 (text_length v.name) && not_empty v.color) p.variants
