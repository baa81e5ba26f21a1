-- ===== src/Attributes/Latest.antt =====
-- apps/backend/repositories/attributes.py: which attributes a call writes, in terms of its argument.
use elegance_shawls.Attributes.Rows.{
  CatalogAttributes, assign, id_opt_eq, is_product_level, put_each, same_entry, unique_onto,
  upsert_attributes,
}
use elegance_shawls.Attributes.Values.{Attribute}
use elegance_shawls.Base.{
  ◌&&◌, ◌++◌, ◌==◌, ==_iff, Bool, Bool-cases, List, Option, Option-cases, [], and_true,
  if◌then◌else◌, eq_iff, false, inl, inr, is_some, none, not, refl, select, some, str_eq, sym, true,
  true-ne-false, ℕ, ◌↔◌, ◌∙◌, ◌∷◌, ◌≡◌, ap,
}
use elegance_shawls.Attributes.Writes.{in_order, upsert_attributes-put_each}
use elegance_shawls.Attributes.Entries.{id_opt_eq_iff}

-- The first attribute of a list with the entry of `k`.
abbrev pub entry_of : Attribute → List Attribute → Option Attribute
entry_of k [] = none
entry_of k (a ∷ others) = if same_entry a k then some a else entry_of k others

-- The last one.
abbrev pub last_of : Attribute → List Attribute → Option Attribute
last_of k [] = none
last_of k (a ∷ others) = elim (last_of k others) [
  | some b ↦ some b
  | none ↦ if same_entry a k then some a else none
]

-- No entry is twice in a list.
abbrev pub Unrepeated : List Attribute → Type 0
Unrepeated [] = Unit
Unrepeated (a ∷ others) = (entry_of a others ≡ none) × Unrepeated others

-- An attribute, or else another one.
abbrev or_else : Option Attribute → Option Attribute → Option Attribute
or_else (some a) b = some a
or_else none b = b

same_entry_iff :
    (a b : Attribute)
    → (same_entry a b ≡ true)
      ↔ ((a.product_id ≡ b.product_id) × (a.variant_id ≡ b.variant_id) × (a.key ≡ b.key))
same_entry_iff a b = (
  λ e.
      let (h, r) =
        and_true (a.product_id == b.product_id && id_opt_eq a.variant_id b.variant_id)
          (str_eq a.key b.key) e in
      let (p, q) =
        and_true (a.product_id == b.product_id) (id_opt_eq a.variant_id b.variant_id) h in
      (
        (==_iff a.product_id b.product_id).0 p,
        (id_opt_eq_iff a.variant_id b.variant_id).0 q,
        (eq_iff a.key b.key).0 r,
      ),
  λ (p, q, r).
      rw
        (
          (==_iff a.product_id b.product_id).1 p,
          (id_opt_eq_iff a.variant_id b.variant_id).1 q,
          (eq_iff a.key b.key).1 r,
        )
        refl,
)

same_entry_sym : (a b : Attribute) → same_entry a b ≡ true → same_entry b a ≡ true
same_entry_sym a b e =
    let (p, q, r) = (same_entry_iff a b).0 e in (same_entry_iff b a).1 (sym p, sym q, sym r)

same_entry_trans :
    (a b c : Attribute) → same_entry a b ≡ true → same_entry b c ≡ true → same_entry a c ≡ true
same_entry_trans a b c e f =
    let (p, q, r) = (same_entry_iff a b).0 e in
    let (p', q', r') = (same_entry_iff b c).0 f in (same_entry_iff a c).1 (p ∙ p', q ∙ q', r ∙ r')

bool_ext : (a b : Bool) → (a ≡ true → b ≡ true) → (b ≡ true → a ≡ true) → a ≡ b
bool_ext true b f g = sym (f refl)
bool_ext false true f g = g refl
bool_ext false false f g = refl

-- What is of the entry of `a` is of the entry of `b` where these are the same.
same_entry_left : (a b k : Attribute) → same_entry a b ≡ true → same_entry a k ≡ same_entry b k
same_entry_left a b k e =
    bool_ext _ _ (λ f. same_entry_trans b a k (same_entry_sym a b e) f)
      (λ f. same_entry_trans a b k e f)

same_entry_right : (a b k : Attribute) → same_entry a b ≡ true → same_entry k a ≡ same_entry k b
same_entry_right a b k e =
    bool_ext _ _ (λ f. same_entry_trans k a b f e)
      (λ f. same_entry_trans k b a f (same_entry_sym a b e))

same_entry_flip : (a b : Attribute) → same_entry a b ≡ false → same_entry b a ≡ false
same_entry_flip a b e = elim (Bool-cases (same_entry b a)) [
  | inl q ↦ absurd (true-ne-false (sym (same_entry_sym b a q) ∙ e))
  | inr q ↦ q
]

entry_of_same :
    (a b : Attribute) (xs : List Attribute) → same_entry a b ≡ true → entry_of a xs ≡ entry_of b xs
entry_of_same a b [] e = refl
entry_of_same a b (x ∷ xs) e = rw (same_entry_right a b x e, entry_of_same a b xs e) refl

entry_of-assign :
    (k a : Attribute) (xs : List Attribute)
    → entry_of k (assign a xs) ≡ (if same_entry a k then some a else entry_of k xs)
unfolding assign
entry_of-assign k a [] = refl
entry_of-assign k a (x ∷ xs) = elim (Bool-cases (same_entry x a)) [
  | inl e ↦
      rw (e, same_entry_left x a k e)
        (elim (Bool-cases (same_entry a k)) [ inl q ↦ rw q refl | inr q ↦ rw q refl ])
  | inr e ↦
      rw (e, entry_of-assign k a xs)
        (elim (Bool-cases (same_entry x k)) [
          | inl p ↦ elim (Bool-cases (same_entry a k)) [
            | inl q ↦
                absurd (true-ne-false (sym (same_entry_trans x k a p (same_entry_sym a k q)) ∙ e))
            | inr q ↦ rw (p, q) refl
          ]
          | inr p ↦ rw p refl
        ])
]

entry_of-unique_onto :
    (k : Attribute) (seen xs : List Attribute)
    → entry_of k (unique_onto seen xs) ≡ or_else (last_of k xs) (entry_of k seen)
unfolding unique_onto
entry_of-unique_onto k seen [] = refl
entry_of-unique_onto k seen (a ∷ xs) =
    entry_of-unique_onto k (assign a seen) xs ∙ elim (Option-cases (last_of k xs)) [
      | inr (b, e) ↦ rw e refl
      | inl e ↦
          rw (e, entry_of-assign k a seen)
            (elim (Bool-cases (same_entry a k)) [ inl q ↦ rw q refl | inr q ↦ rw q refl ])
    ]

assign-Unrepeated : (a : Attribute) (xs : List Attribute) → Unrepeated xs → Unrepeated (assign a xs)
unfolding assign
assign-Unrepeated a [] u = (refl, tt)
assign-Unrepeated a (x ∷ xs) u = elim (Bool-cases (same_entry x a)) [
  | inl e ↦ rw e (sym (entry_of_same x a xs e) ∙ u.0, u.1)
  | inr e ↦
      rw e (entry_of-assign x a xs ∙ rw (same_entry_flip x a e) u.0, assign-Unrepeated a xs u.1)
]

unique_onto-Unrepeated :
    (seen xs : List Attribute) → Unrepeated seen → Unrepeated (unique_onto seen xs)
unfolding unique_onto
unique_onto-Unrepeated seen [] u = u
unique_onto-Unrepeated seen (a ∷ xs) u =
    unique_onto-Unrepeated (assign a seen) xs (assign-Unrepeated a seen u)

entry_of-append :
    (k : Attribute) (xs ys : List Attribute)
    → entry_of k (xs ++ ys) ≡ or_else (entry_of k xs) (entry_of k ys)
entry_of-append k [] ys = refl
entry_of-append k (x ∷ xs) ys = elim (Bool-cases (same_entry x k)) [
  | inl e ↦ rw e refl
  | inr e ↦ rw e (entry_of-append k xs ys)
]

-- The attributes that pass a test which depends on the entry alone.
module _ (p : Attribute → Bool) (fair : (a b : Attribute) → same_entry a b ≡ true → p a ≡ p b) where
  entry_of-select :
      (k : Attribute) (xs : List Attribute)
      → entry_of k (select p xs) ≡ (if p k then entry_of k xs else none)
  entry_of-select k [] = elim (Bool-cases (p k)) [ inl e ↦ rw e refl | inr e ↦ rw e refl ]
  entry_of-select k (x ∷ xs) = elim (Bool-cases (same_entry x k)) [
    | inl e ↦ elim (Bool-cases (p k)) [
      | inl q ↦ rw (fair x k e ∙ q, e, q) refl
      | inr q ↦ rw (fair x k e ∙ q, q, entry_of-select k xs, q) refl
    ]
    | inr e ↦ elim (Bool-cases (p x)) [
      | inl q ↦ rw (q, e, entry_of-select k xs) refl
      | inr q ↦ rw (q, e, entry_of-select k xs) refl
    ]
  ]

  select-Unrepeated : (xs : List Attribute) → Unrepeated xs → Unrepeated (select p xs)
  select-Unrepeated [] u = tt
  select-Unrepeated (x ∷ xs) u = elim (Bool-cases (p x)) [
    | inl e ↦ rw e (entry_of-select x xs ∙ rw (e, u.0) refl, select-Unrepeated xs u.1)
    | inr e ↦ rw e (select-Unrepeated xs u.1)
  ]

  -- In front of such attributes that all fail it.
  append-Unrepeated :
      (xs ys : List Attribute)
      → Unrepeated xs
      → Unrepeated ys
      → ((k : Attribute) → p k ≡ true → entry_of k ys ≡ none)
      → Unrepeated (select p xs ++ ys)
  append-Unrepeated [] ys u v apart = v
  append-Unrepeated (x ∷ xs) ys u v apart = elim (Bool-cases (p x)) [
    | inl e ↦ rw e (
      entry_of-append x (select p xs) ys ∙ rw (entry_of-select x xs, e, u.0, apart x e) refl,
      append-Unrepeated xs ys u.1 v apart,
    )
    | inr e ↦ rw e (append-Unrepeated xs ys u.1 v apart)
  ]

product_level_fair :
    (a b : Attribute) → same_entry a b ≡ true → is_product_level a ≡ is_product_level b
product_level_fair a b e = ap (λ (v : Option ℕ). not (is_some v)) ((same_entry_iff a b).0 e).1

variant_level_fair :
    (a b : Attribute) → same_entry a b ≡ true → not (is_product_level a) ≡ not (is_product_level b)
variant_level_fair a b e = ap not (product_level_fair a b e)

in_order-last :
    (k : Attribute) (attributes : List Attribute)
    → entry_of k (in_order attributes) ≡ last_of k attributes
in_order-last k attributes =
    let unique = unique_onto [] attributes in
    let all_of = entry_of-unique_onto k [] attributes in
    let own = entry_of-select is_product_level product_level_fair k unique in
    let variants = entry_of-select (λ a. not (is_product_level a)) variant_level_fair k unique in
    entry_of-append k (select is_product_level unique)
      (select (λ a. not (is_product_level a)) unique)
    ∙ rw (own, variants, all_of)
        (elim (Bool-cases (is_product_level k)) [
          | inl e ↦ rw e (none_last (last_of k attributes))
          | inr e ↦ rw e (none_first (last_of k attributes))
        ])
  where
    none_last : (o : Option Attribute) → or_else (or_else o none) none ≡ o
    none_last none = refl
    none_last (some a) = refl

    none_first : (o : Option Attribute) → or_else none (or_else o none) ≡ o
    none_first none = refl
    none_first (some a) = refl

in_order-Unrepeated : (attributes : List Attribute) → Unrepeated (in_order attributes)
in_order-Unrepeated attributes =
    let unique = unique_onto [] attributes in
    let u = unique_onto-Unrepeated [] attributes tt in
    let variants : Attribute → Bool = λ a. not (is_product_level a) in
    append-Unrepeated is_product_level product_level_fair unique (select variants unique) u
      (select-Unrepeated variants variant_level_fair unique u)
      (λ k e. entry_of-select variants variant_level_fair k unique ∙ rw e refl)

-- A call of `upsert_attributes` is the one-by-one write, without chunks, of a list that holds no product,
-- variant and key twice and, for each that the argument has, the last attribute of the argument with it.
pub upsert_attributes-latest :
    (draw : ℕ → ℕ) (now : ℕ) (attributes : List Attribute) (rows : CatalogAttributes)
    → (written : List Attribute) × (upsert_attributes draw now attributes rows
        ≡ put_each draw now written rows)
      × Unrepeated written
      × ((k : Attribute) → entry_of k written ≡ last_of k attributes)
upsert_attributes-latest draw now attributes rows = (
  in_order attributes,
  upsert_attributes-put_each draw now attributes rows,
  in_order-Unrepeated attributes,
  λ k. in_order-last k attributes,
)
