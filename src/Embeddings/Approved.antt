-- ===== src/Embeddings/Approved.antt =====
-- apps/backend/search/representations.py: a source that is not approved, as a visual suggestion, never
-- reaches the text of a product or variant.
use elegance_shawls.Attributes.Values.{attribute_keys}
use elegance_shawls.Attributes.Rows.{CatalogAttribute}
use elegance_shawls.Base.{
  ◌&&◌, Bool, Bool-cases, List, String, [], contains, inl, inr, refl, select, str_eq, true, ◌∷◌,
  ◌≡◌, arith, ap, Option, and_true, is_text, if◌then◌else◌, not, some,
}
use Prim.Native.Char.{Char}
use elegance_shawls.Embeddings.Representation.{
  approved_sources, attribute_lines, build, clean, is_used, lines_of, product_representation,
  unknown_keys, values_of, variant_representation, Kind, Represented, Unrepresentable,
}

abbrev pub of_approved_source : CatalogAttribute → Bool
of_approved_source a = contains a.source approved_sources

-- A test that implies another selects the same from what the other selects.
select-select {ℓ} :
    {A : Type ℓ} (p q : A → Bool) (xs : List A)
    → ((a : A) → p a ≡ true → q a ≡ true)
    → select p (select q xs) ≡ select p xs
select-select p q [] h = refl
select-select p q (x ∷ xs) h = elim (Bool-cases (p x)) [
  | inl e ↦ rw (h x e, e) (ap (λ l. x ∷ l) (select-select p q xs h))
  | inr e ↦ elim (Bool-cases (q x)) [
    | inl f ↦ rw (f, e) (select-select p q xs h)
    | inr f ↦ rw (f, e) (select-select p q xs h)
  ]
]

unknown_keys-select :
    (q : CatalogAttribute → Bool) (xs : List CatalogAttribute)
    → unknown_keys xs ≡ []
    → unknown_keys (select q xs) ≡ []
unknown_keys-select q [] e = refl
unknown_keys-select q (x ∷ xs) e = elim (Bool-cases (q x)) [
  | inl f ↦ rw f (ground (arith, unknown_keys-select q xs))
  | inr f ↦ rw f (ground (arith, unknown_keys-select q xs))
]

module _ (normalize : String → String) (is_control : Char → Bool) (split : String → List String)
    (sha256 : String → String) where
  values_of-approved :
      (key : String) (xs : List CatalogAttribute)
      → values_of normalize is_control split sha256 key (select of_approved_source xs)
        ≡ values_of normalize is_control split sha256 key xs
  unfolding values_of is_used
  values_of-approved key xs =
      rw
        (select-select (λ a. is_used normalize is_control split sha256 a && str_eq a.key key)
          of_approved_source xs
          (λ a h.
            let used =
              and_true (is_used normalize is_control split sha256 a) (str_eq a.key key) h in
            (and_true (is_text (clean normalize is_control split sha256 a.value))
              (contains a.source approved_sources) used.0).1))
        refl

  lines_of-approved :
      (keys : List String) (xs : List CatalogAttribute)
      → lines_of normalize is_control split sha256 keys (select of_approved_source xs)
        ≡ lines_of normalize is_control split sha256 keys xs
  unfolding lines_of
  lines_of-approved [] xs = refl
  lines_of-approved (key ∷ keys) xs = rw (values_of-approved key xs, lines_of-approved keys xs) refl

  attribute_lines-approved :
      (xs : List CatalogAttribute)
      → unknown_keys xs ≡ []
      → attribute_lines normalize is_control split sha256 (select of_approved_source xs)
        ≡ attribute_lines normalize is_control split sha256 xs
  unfolding attribute_lines
  attribute_lines-approved xs known =
      rw (attribute_lines, unknown_keys-select of_approved_source xs known, known)
        (ap inr (lines_of-approved attribute_keys xs))

  build-approved :
      (kind : Kind) (fields : List (String × Option String)) (xs : List CatalogAttribute)
      → unknown_keys xs ≡ []
      → build normalize is_control split sha256 kind fields (select of_approved_source xs)
        ≡ build normalize is_control split sha256 kind fields xs
  unfolding build
  build-approved kind fields xs known = rw (build, attribute_lines-approved xs known) refl

  -- Attributes of known keys whose source is not an approved one, as a visual suggestion, change neither
  -- the representation of a product nor that of a variant: each is that of the other attributes alone.
  pub representation-approved :
      (name : String) (category material description variant_name color : Option String)
      (attributes : List CatalogAttribute)
      → unknown_keys attributes ≡ []
      → (product_representation normalize is_control split sha256 name category material description
            (select of_approved_source attributes)
          ≡ product_representation normalize is_control split sha256 name category material
              description attributes)
        × (variant_representation normalize is_control split sha256 name variant_name color category
              material
              (select of_approved_source attributes)
            ≡ variant_representation normalize is_control split sha256 name variant_name color
                category material attributes)
  unfolding product_representation variant_representation
  representation-approved name category material description variant_name color attributes known =
      let named : Represented → Represented = λ b.
        if not (is_text (clean normalize is_control split sha256 (some name)))
        then inl Unrepresentable.no_name
        else b in
      (
        ap named (build-approved Kind.product _ attributes known),
        ap named (build-approved Kind.variant _ attributes known),
      )
