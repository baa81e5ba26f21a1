-- ===== src/Attributes/Entries.antt =====
-- apps/backend/repositories/attributes.py: the attributes that a call writes have different slots.
use mathlib.Core.Path.{subst}
use elegance_shawls.Attributes.Writes.{in_order}
use elegance_shawls.Attributes.Rows.{
  assign, attribute_slot, id_opt_eq, is_product_level, same_entry, slot, unique_onto,
}
use elegance_shawls.Attributes.Values.{Attribute}
use elegance_shawls.Base.{
  ◌&&◌, ◌++◌, ◌==◌, ==_iff, All, All-append, Bool, Bool-cases, List, Option, String, [], and_true,
  eq_iff, inl, inr, is_some, none, not, refl, select, some, some_inj, str_eq, sym, true,
  true-ne-false, ℕ, ◌↔◌, ◌∙◌, ◌∷◌, ◌≡◌, ◌≢◌, ap,
}

-- No two attributes of a list have one slot.
abbrev pub DistinctSlots : List Attribute → Type 0
DistinctSlots [] = Unit
DistinctSlots (a ∷ others) =
    All (λ b. attribute_slot a ≢ attribute_slot b) others × DistinctSlots others

-- The foreign key of the variant with its product.
abbrev pub VariantOf : (ℕ → ℕ) → ℕ → Option ℕ → Type 0
VariantOf product_of p none = Unit
VariantOf product_of p (some v) = product_of v ≡ p

abbrev pub OfProduct : (ℕ → ℕ) → Attribute → Type 0
OfProduct product_of a = VariantOf product_of a.product_id a.variant_id

pub id_opt_eq_iff : (a b : Option ℕ) → (id_opt_eq a b ≡ true) ↔ (a ≡ b)
id_opt_eq_iff none none = (λ e. refl, λ e. refl)
id_opt_eq_iff none (some b) = (λ e. absurd (cc e), λ e. absurd (cc e))
id_opt_eq_iff (some a) none = (λ e. absurd (cc e), λ e. absurd (cc e))
id_opt_eq_iff (some a) (some b) =
    (λ e. ap some ((==_iff a b).0 e), λ e. (==_iff a b).1 (some_inj e))

-- Entries of one key have one slot.
entry-slot : (a b : Attribute) → same_entry b a ≡ true → attribute_slot b ≡ attribute_slot a
entry-slot a b e =
    let (h, r) =
      and_true (b.product_id == a.product_id && id_opt_eq b.variant_id a.variant_id)
        (str_eq b.key a.key) e in
    let (p, q) = and_true (b.product_id == a.product_id) (id_opt_eq b.variant_id a.variant_id) h in
    rw
      (
        (==_iff b.product_id a.product_id).0 p,
        (id_opt_eq_iff b.variant_id a.variant_id).0 q,
        (eq_iff b.key a.key).0 r,
      )
      refl

-- A slot's owner tells the product, a variant's by the foreign key.
slot_parts :
    (product_of : ℕ → ℕ) (p q : ℕ) (v w : Option ℕ) (k l : String)
    → VariantOf product_of p v
    → VariantOf product_of q w
    → slot p v k ≡ slot q w l
    → (p ≡ q) × (v ≡ w) × (k ≡ l)
slot_parts product_of p q none none k l h h' e = (cc e, refl, cc e)
slot_parts product_of p q none (some j) k l h h' e = absurd (cc e)
slot_parts product_of p q (some i) none k l h h' e = absurd (cc e)
slot_parts product_of p q (some i) (some j) k l h h' e =
    let same : i ≡ j = cc e in (sym h ∙ ap product_of same ∙ h', ap some same, cc e)

slot-entry :
    (product_of : ℕ → ℕ) (a b : Attribute)
    → OfProduct product_of a
    → OfProduct product_of b
    → attribute_slot b ≡ attribute_slot a
    → same_entry b a ≡ true
slot-entry product_of a b of_a of_b e =
    let (p, v, k) =
      slot_parts product_of b.product_id a.product_id b.variant_id a.variant_id b.key a.key of_b
        of_a e in
    rw
      (
        (==_iff b.product_id a.product_id).1 p,
        (id_opt_eq_iff b.variant_id a.variant_id).1 v,
        (eq_iff b.key a.key).1 k,
      )
      refl

All-assign {ℓ} :
    (P : Attribute → Type ℓ) (a : Attribute) (bs : List Attribute)
    → P a
    → All P bs
    → All P (assign a bs)
unfolding assign
All-assign P a [] p h = (p, tt)
All-assign P a (b ∷ bs) p h = elim (Bool-cases (same_entry b a)) [
  | inl e ↦ rw e (p, h.1)
  | inr e ↦ rw e (h.0, All-assign P a bs p h.1)
]

module _ (product_of : ℕ → ℕ) where
  assign-DistinctSlots :
      (a : Attribute) (bs : List Attribute)
      → OfProduct product_of a
      → All (OfProduct product_of) bs
      → DistinctSlots bs
      → DistinctSlots (assign a bs)
  unfolding assign
  assign-DistinctSlots a [] of_a of_bs d = (tt, tt)
  assign-DistinctSlots a (b ∷ bs) of_a of_bs d = elim (Bool-cases (same_entry b a)) [
    | inl e ↦ rw e (subst (λ s. All (λ c. s ≢ attribute_slot c) bs) (entry-slot a b e) d.0, d.1)
    | inr e ↦ rw e (
      All-assign (λ c. attribute_slot b ≢ attribute_slot c) a bs
          (λ q. true-ne-false (sym (slot-entry product_of a b of_a of_bs.0 q) ∙ e)) d.0,
      assign-DistinctSlots a bs of_a of_bs.1 d.1,
    )
  ]

  unique_onto-DistinctSlots :
      (seen attributes : List Attribute)
      → All (OfProduct product_of) seen
      → All (OfProduct product_of) attributes
      → DistinctSlots seen
      → DistinctSlots (unique_onto seen attributes)
  unfolding unique_onto
  unique_onto-DistinctSlots seen [] of_seen h d = d
  unique_onto-DistinctSlots seen (a ∷ others) of_seen h d =
      unique_onto-DistinctSlots (assign a seen) others
        (All-assign (OfProduct product_of) a seen h.0 of_seen) h.1
        (assign-DistinctSlots a seen h.0 of_seen d)

All-select {ℓ} :
    (P : Attribute → Type ℓ) (p : Attribute → Bool) (bs : List Attribute)
    → All P bs
    → All P (select p bs)
All-select P p [] h = tt
All-select P p (b ∷ bs) h = elim (Bool-cases (p b)) [
  | inl e ↦ rw e (h.0, All-select P p bs h.1)
  | inr e ↦ rw e (All-select P p bs h.1)
]

select-DistinctSlots :
    (p : Attribute → Bool) (bs : List Attribute) → DistinctSlots bs → DistinctSlots (select p bs)
select-DistinctSlots p [] d = tt
select-DistinctSlots p (b ∷ bs) d = elim (Bool-cases (p b)) [
  | inl e ↦ rw e (
    All-select (λ c. attribute_slot b ≢ attribute_slot c) p bs d.0,
    select-DistinctSlots p bs d.1,
  )
  | inr e ↦ rw e (select-DistinctSlots p bs d.1)
]

-- A product's own attribute and a variant's have different slots.
slot_kinds :
    (p q : ℕ) (v w : Option ℕ) (k l : String)
    → not (is_some v) ≡ true
    → not (not (is_some w)) ≡ true
    → slot p v k ≢ slot q w l
slot_kinds p q none (some j) k l h h' = λ e. cc e
slot_kinds p q none none k l h h' = λ e. true-ne-false (sym h')
slot_kinds p q (some i) w k l h h' = λ e. true-ne-false (sym h)

variant_slots :
    (a : Attribute) (bs : List Attribute)
    → is_product_level a ≡ true
    → All (λ b. attribute_slot a ≢ attribute_slot b) (select (λ b. not (is_product_level b)) bs)
variant_slots a [] h = tt
variant_slots a (b ∷ bs) h = elim (Bool-cases (not (is_product_level b))) [
  | inl e ↦ rw e (
    slot_kinds a.product_id b.product_id a.variant_id b.variant_id a.key b.key h e,
    variant_slots a bs h,
  )
  | inr e ↦ rw e (variant_slots a bs h)
]

own_first :
    (xs bs : List Attribute)
    → DistinctSlots bs
    → DistinctSlots xs
    → DistinctSlots (select is_product_level xs ++ select (λ b. not (is_product_level b)) bs)
own_first [] bs d_bs d = select-DistinctSlots (λ b. not (is_product_level b)) bs d_bs
own_first (a ∷ xs) bs d_bs d = elim (Bool-cases (is_product_level a)) [
  | inl e ↦ rw e (
    All-append (λ b. attribute_slot a ≢ attribute_slot b) (select is_product_level xs)
        (select (λ b. not (is_product_level b)) bs)
        (All-select (λ b. attribute_slot a ≢ attribute_slot b) is_product_level xs d.0)
        (variant_slots a bs e),
    own_first xs bs d_bs d.1,
  )
  | inr e ↦ rw e (own_first xs bs d_bs d.1)
]

pub in_order-DistinctSlots :
    (product_of : ℕ → ℕ) (attributes : List Attribute)
    → All (OfProduct product_of) attributes
    → DistinctSlots (in_order attributes)
in_order-DistinctSlots product_of attributes h =
    let d = unique_onto-DistinctSlots product_of [] attributes tt h tt in
    own_first (unique_onto [] attributes) (unique_onto [] attributes) d d
