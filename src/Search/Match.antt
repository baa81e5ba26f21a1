-- ===== src/Search/Match.antt =====
-- apps/backend/catalog/search.py: which products match a query, and by which variants.
use elegance_shawls.Query.Terms.{Vocabulary, canonical, is_color, is_material}
use elegance_shawls.Catalogue.Rows.{Product, Variant, is_active_status}
use elegance_shawls.Query.Parse.{ParsedQuery}
use elegance_shawls.Keyset.{Key}
use elegance_shawls.Base.{
  ◌&&◌, ◌++◌, Bool, List, Option, String, [], all, contains, if◌then◌else◌, false, is_some, is_text,
  joined, leb, ltb, map, none, not, select, some, str_eq, true, ◌||◌, ℕ, ◌∷◌,
}

-- The class Hit.
pub record Hit : Type 0 where
  pub product : Product
  pub variant_ids : List ℕ

abbrev pub catalogue_currency : String
catalogue_currency = "PKR"

abbrev pub product_key : Product → Key
product_key p = record { created_at = p.created_at; id = p.id }

-- Two sets of texts have a member in common.
abbrev pub meets : List String → List String → Bool
meets [] us = false
meets (t ∷ ts) us = contains t us || meets ts us

abbrev pub is_empty {ℓ} : {A : Type ℓ} → List A → Bool
is_empty [] = true
is_empty (x ∷ xs) = false

abbrev pub at_least : Option ℕ → ℕ → Bool
at_least none price = true
at_least (some n) price = leb n price

abbrev pub at_most : Option ℕ → ℕ → Bool
at_most none price = true
at_most (some n) price = leb price n

-- The colours of a variant, against those asked for and those excluded.
unfoldable pub color_ok : ParsedQuery → List String → Bool
color_ok q colors =
    not (is_empty colors)
    && (is_empty q.colors || meets colors q.colors)
    && not (meets colors q.exclude_colors)

unfoldable pub price_ok : ParsedQuery → Variant → Bool
price_ok q v =
    str_eq v.currency catalogue_currency
    && at_least q.min_price v.price
    && at_most q.max_price v.price

-- `canonical_colors` is `vocab.canonical("color", …)`.
unfoldable pub variant_ok : (Option String → List String) → ParsedQuery → Variant → Bool
variant_ok canonical_colors q v =
    v.is_active
    && ((is_empty q.colors && is_empty q.exclude_colors) || color_ok q (canonical_colors v.color))
    && (not (is_some q.min_price || is_some q.max_price) || price_ok q v)
    && (not q.in_stock || ltb 0 v.stock)

-- filter(None, …)
abbrev pub given : Option String → List String
given none = []
given (some t) = if is_text t then t ∷ [] else []

abbrev pub variant_names : List Variant → List String
variant_names [] = []
variant_names (v ∷ vs) = given (some v.name) ++ variant_names vs

unfoldable pub product_words : (String → List String) → Product → List String
product_words tokenize p = tokenize (
    joined " " (
      given (some p.name)
      ++ given p.main_description
      ++ given p.material
      ++ given p.item_number
      ++ variant_names p.variants))

unfoldable pub text_ok : (String → List String) → Product → ParsedQuery → Bool
text_ok tokenize p q = all (λ t. contains t (product_words tokenize p)) q.text

unfoldable pub matching_ids : (Option String → List String) → ParsedQuery → List Variant → List ℕ
matching_ids canonical_colors q variants =
    map (λ v. v.id) (select (variant_ok canonical_colors q) variants)

-- The tests of `evaluate` on the product itself.
unfoldable pub product_ok : (String → List String) → Vocabulary → ParsedQuery → Product → Bool
product_ok tokenize vocab q p =
    is_empty q.unsupported
    && is_active_status p.status
    && (is_empty q.categories || contains p.category q.categories)
    && (is_empty q.materials || meets (canonical tokenize vocab is_material p.material) q.materials)
    && text_ok tokenize p q

unfoldable pub evaluate : (String → List String) → Vocabulary → ParsedQuery → Product → Option Hit
evaluate tokenize vocab q p =
    let ids = matching_ids (canonical tokenize vocab is_color) q p.variants in
    if product_ok tokenize vocab q p
    then (if is_empty ids then none else some (record { product = p; variant_ids = ids }))
    else none

-- The hits among products, in their order.
unfoldable pub hits_of : (Product → Option Hit) → List Product → List Hit
hits_of eval [] = []
hits_of eval (p ∷ ps) = elim (eval p) [ none ↦ hits_of eval ps | some h ↦ h ∷ hits_of eval ps ]
