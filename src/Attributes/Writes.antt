-- ===== src/Attributes/Writes.antt =====
-- apps/backend/repositories/attributes.py: what one row of the statement does to the table, and that
-- the chunks of a call amount to its rows, one after the other.
use mathlib.Core.Path.{subst}
use elegance_shawls.Attributes.Rows.{
  CatalogAttribute, CatalogAttributes, Slot, attribute_slot, inserted, lookup, overwritten, put,
  put_chunks, put_each, replaces, row_slot, slot_eq, chunk, is_product_level, unique_onto,
  upsert_attributes,
}
use elegance_shawls.Attributes.Values.{Attribute}
use elegance_shawls.Base.{
  ◌+◌, ◌++◌, ◌==◌, ==_iff, Bool, Bool-cases, List, Option, [], and_true, arith, if◌then◌else◌,
  eq_iff, false, inl, inr, length, none, refl, some, some-ne-none, some_inj, str_eq, suc, sym, true,
  zero, ℕ, ◌↔◌, ◌∙◌, ◌∷◌, ◌≡◌, ◌≢◌, ◌≤◌, ap, drop, length-drop, not, select, take, take-append-drop,
}

pub slot_eq_iff : (a b : Slot) → (slot_eq a b ≡ true) ↔ (a ≡ b)
slot_eq_iff (Slot.of_product a k) (Slot.of_product b l) = (
  λ e. let (p, q) = and_true (a == b) (str_eq k l) e in cc ((==_iff a b).0 p, (eq_iff k l).0 q),
  λ e. rw ((==_iff a b).1 (cc e), (eq_iff k l).1 (cc e)) refl,
)
slot_eq_iff (Slot.of_product a k) (Slot.of_variant b l) = (λ e. absurd (cc e), λ e. absurd (cc e))
slot_eq_iff (Slot.of_variant a k) (Slot.of_product b l) = (λ e. absurd (cc e), λ e. absurd (cc e))
slot_eq_iff (Slot.of_variant a k) (Slot.of_variant b l) = (
  λ e. let (p, q) = and_true (a == b) (str_eq k l) e in cc ((==_iff a b).0 p, (eq_iff k l).0 q),
  λ e. rw ((==_iff a b).1 (cc e), (eq_iff k l).1 (cc e)) refl,
)

pub slot_eq_refl : (s : Slot) → slot_eq s s ≡ true
slot_eq_refl s = (slot_eq_iff s s).1 refl

pub slot_ne : (a b : Slot) → a ≢ b → slot_eq a b ≡ false
slot_ne a b h = elim (Bool-cases (slot_eq a b)) [
  | inl e ↦ absurd (h ((slot_eq_iff a b).0 e))
  | inr e ↦ e
]

-- What the table holds under the slot of the attribute that was put.
abbrev pub outcome : ℕ → ℕ → Attribute → Option CatalogAttribute → CatalogAttribute × Bool
outcome id now a none = (inserted id now a, true)
outcome id now a (some r) = if replaces a r then (overwritten now a r, true) else (r, false)

pub put_outcome :
    (id now : ℕ) (a : Attribute) (rows : CatalogAttributes)
    → (lookup (attribute_slot a) (put id now a rows).0
        ≡ some (outcome id now a (lookup (attribute_slot a) rows)).0)
      × ((put id now a rows).1 ≡ (outcome id now a (lookup (attribute_slot a) rows)).1)
unfolding put lookup
put_outcome id now a [] = (rw (slot_eq_refl (attribute_slot a)) refl, refl)
put_outcome id now a (r ∷ rs) = elim (Bool-cases (slot_eq (row_slot r) (attribute_slot a))) [
  | inl e ↦ elim (Bool-cases (replaces a r)) [
    | inl q ↦ (rw (e, q, e) refl, rw (e, q) refl)
    | inr q ↦ (rw (e, q, e) refl, rw (e, q) refl)
  ]
  | inr e ↦ let rest = put_outcome id now a rs in (rw (e, e) rest.0, rw e rest.1)
]

pub put_elsewhere :
    (id now : ℕ) (a : Attribute) (s : Slot) (rows : CatalogAttributes)
    → attribute_slot a ≢ s
    → lookup s (put id now a rows).0 ≡ lookup s rows
unfolding put lookup
put_elsewhere id now a s [] h = rw (slot_ne (attribute_slot a) s h) refl
put_elsewhere id now a s (r ∷ rs) h = elim (Bool-cases (slot_eq (row_slot r) (attribute_slot a))) [
  | inl e ↦
      let off =
        slot_ne (row_slot r) s
          (λ q. h (sym ((slot_eq_iff (row_slot r) (attribute_slot a)).0 e) ∙ q)) in
      elim (Bool-cases (replaces a r)) [ inl q ↦ rw (e, q, off) refl | inr q ↦ rw (e, q, off) refl ]
  | inr e ↦ elim (Bool-cases (slot_eq (row_slot r) s)) [
    | inl q ↦ rw (e, q) refl
    | inr q ↦ rw (e, q) (put_elsewhere id now a s rs h)
  ]
]

-- What does not replace the row of its slot changes nothing.
pub put_same :
    (id now : ℕ) (a : Attribute) (rows : CatalogAttributes) {r : CatalogAttribute}
    → lookup (attribute_slot a) rows ≡ some r
    → replaces a r ≡ false
    → put id now a rows ≡ (rows, false)
unfolding put lookup
put_same id now a [] found same = absurd (some-ne-none (sym found))
put_same id now a (x ∷ rs) {r = r} found same =
    elim (Bool-cases (slot_eq (row_slot x) (attribute_slot a))) [
      | inl e ↦
          let here : x ≡ r = some_inj (rw e at found) in
          rw (e, subst (λ y. replaces a y ≡ false) (sym here) same) refl
      | inr e ↦ rw (e, put_same id now a rs {r = r} (rw e at found) same) refl
    ]

module _ (draw : ℕ → ℕ) (now : ℕ) where
  pub put_each-append :
      (front back : List Attribute) (rows : CatalogAttributes)
      → (let first = put_each draw now front rows in
          let second = put_each draw now back first.0 in
          put_each draw now (front ++ back) rows ≡ (second.0, first.1 + second.1))
  unfolding put_each
  put_each-append [] back rows = ap (λ (n : ℕ). ((put_each draw now back rows).0, n)) (omega arith)
  put_each-append (a ∷ front) back rows =
      let step = put (draw (length rows)) now a rows in
      let counted : ℕ = if step.1 then 1 else 0 in
      let rest = put_each draw now front step.0 in
      rw (put_each-append front back step.0)
        (ap (λ (n : ℕ). ((put_each draw now back rest.0).0, n)) (omega arith))

  -- Chunks of at least one row amount to the rows, one after the other.
  pub put_chunks_each :
      (size fuel : ℕ) (attributes : List Attribute) (rows : CatalogAttributes)
      → 1 ≤ size
      → length attributes ≤ fuel
      → put_chunks draw now size fuel attributes rows ≡ put_each draw now attributes rows
  unfolding put_chunks put_each
  put_chunks_each size zero [] rows h f = refl
  put_chunks_each size zero (a ∷ others) rows h f = absurd (omega arith)
  put_chunks_each size (suc fuel) [] rows h f = refl
  put_chunks_each size (suc fuel) (a ∷ others) rows h f =
      let xs = a ∷ others in
      let step = put_each draw now (take size xs) rows in
      rw (put_chunks_each size fuel (drop size xs) step.0 h (omega (arith, length-drop size xs))) (
        sym (put_each-append (take size xs) (drop size xs) rows)
        ∙ ap (λ l. put_each draw now l rows) (take-append-drop size xs))

-- The attributes of a call in the order of its writes.
abbrev pub in_order : List Attribute → List Attribute
in_order attributes =
    let unique = unique_onto [] attributes in
    select is_product_level unique ++ select (λ a. not (is_product_level a)) unique

-- A call of `upsert_attributes` writes the last attribute of each key, one after the other, however
-- the chunks cut them: the products' own first, then the variants'.
pub upsert_attributes-put_each :
    (draw : ℕ → ℕ) (now : ℕ) (attributes : List Attribute) (rows : CatalogAttributes)
    → upsert_attributes draw now attributes rows ≡ put_each draw now (in_order attributes) rows
unfolding upsert_attributes
upsert_attributes-put_each draw now attributes rows =
    let unique = unique_onto [] attributes in
    let own = select is_product_level unique in
    let variants = select (λ a. not (is_product_level a)) unique in
    let first = put_each draw now own rows in
    rw
      (
        put_chunks_each draw now chunk (length own) own rows (omega arith) (omega arith),
        put_chunks_each draw now chunk (length variants) variants first.0 (omega arith)
            (omega arith),
      )
      (sym (put_each-append draw now own variants rows))
