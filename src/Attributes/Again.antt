-- ===== src/Attributes/Again.antt =====
-- apps/backend/repositories/attributes.py: a repeated upsert changes nothing.
use elegance_shawls.Attributes.Entries.{DistinctSlots, OfProduct, in_order-DistinctSlots}
use elegance_shawls.Attributes.Writes.{
  outcome, put_elsewhere, put_outcome, put_same, in_order, upsert_attributes-put_each,
}
use elegance_shawls.Attributes.Rows.{
  CatalogAttribute, CatalogAttributes, attribute_slot, differs, inserted, lookup, overwritten, put,
  put_each, replaces, text_opt_eq, time_opt_eq, outranks, upsert_attributes,
}
use elegance_shawls.Attributes.Values.{Attribute}
use elegance_shawls.Base.{
  ==_refl, All, Bool-cases, List, Option, String, [], eq_refl, false, inl, inr, length, none, refl,
  some, sym, true, ℕ, ◌∙◌, ◌∷◌, ◌≡◌, ◌≢◌, ◌&&◌, Bool,
}

-- The table holds, under the attribute's slot, a row that the attribute does not replace.
abbrev Settled : CatalogAttributes → Attribute → Type 0
Settled rows a =
    (r : CatalogAttribute) × (lookup (attribute_slot a) rows ≡ some r) × (replaces a r ≡ false)

text_opt_eq_refl : (t : Option String) → text_opt_eq t t ≡ true
text_opt_eq_refl none = refl
text_opt_eq_refl (some t) = eq_refl t

time_opt_eq_refl : (t : Option ℕ) → time_opt_eq t t ≡ true
time_opt_eq_refl none = refl
time_opt_eq_refl (some t) = ==_refl t

and_false : (b : Bool) → (b && false) ≡ false
and_false true = refl
and_false false = refl

-- A row with the attribute's values is not replaced by it.
replaces_same :
    (a : Attribute) (r : CatalogAttribute)
    → r.value ≡ a.value
    → r.source ≡ a.source
    → r.model_version ≡ a.model_version
    → r.approved_by ≡ a.approved_by
    → r.approved_at ≡ a.approved_at
    → replaces a r ≡ false
unfolding differs
replaces_same a r p q s t u =
    rw
      (
        p,
        q,
        s,
        t,
        u,
        text_opt_eq_refl a.value,
        eq_refl a.source,
        text_opt_eq_refl a.model_version,
        text_opt_eq_refl a.approved_by,
        time_opt_eq_refl a.approved_at,
      )
      (and_false (outranks a.source a.source))

outcome-replaces :
    (id now : ℕ) (a : Attribute) (found : Option CatalogAttribute)
    → replaces a (outcome id now a found).0 ≡ false
outcome-replaces id now a none = replaces_same a (inserted id now a) refl refl refl refl refl
outcome-replaces id now a (some r) = elim (Bool-cases (replaces a r)) [
  | inl q ↦ rw q (replaces_same a (overwritten now a r) refl refl refl refl refl)
  | inr q ↦ rw q q
]

put-Settled :
    (id now : ℕ) (a : Attribute) (rows : CatalogAttributes) → Settled (put id now a rows).0 a
put-Settled id now a rows =
    let found = lookup (attribute_slot a) rows in
    ((outcome id now a found).0, (put_outcome id now a rows).0, outcome-replaces id now a found)

put-keeps-Settled :
    (id now : ℕ) (a b : Attribute) (rows : CatalogAttributes)
    → attribute_slot a ≢ attribute_slot b
    → Settled rows b
    → Settled (put id now a rows).0 b
put-keeps-Settled id now a b rows ne (r, found, kept) =
    (r, put_elsewhere id now a (attribute_slot b) rows ne ∙ found, kept)

module _ (draw : ℕ → ℕ) (now : ℕ) where
  put_each-keeps-Settled :
      (b : Attribute) (attributes : List Attribute) (rows : CatalogAttributes)
      → All (λ a. attribute_slot b ≢ attribute_slot a) attributes
      → Settled rows b
      → Settled (put_each draw now attributes rows).0 b
  unfolding put_each
  put_each-keeps-Settled b [] rows ne settled = settled
  put_each-keeps-Settled b (a ∷ others) rows ne settled =
      put_each-keeps-Settled b others (put (draw (length rows)) now a rows).0 ne.1
        (put-keeps-Settled (draw (length rows)) now a b rows (λ e. ne.0 (sym e)) settled)

  put_each-Settled :
      (attributes : List Attribute) (rows : CatalogAttributes)
      → DistinctSlots attributes
      → All (Settled (put_each draw now attributes rows).0) attributes
  unfolding put_each
  put_each-Settled [] rows d = tt
  put_each-Settled (a ∷ others) rows d =
      let rows' = (put (draw (length rows)) now a rows).0 in
      (
        put_each-keeps-Settled a others rows' d.0 (put-Settled (draw (length rows)) now a rows),
        put_each-Settled others rows' d.1,
      )

  Settled-put_each :
      (attributes : List Attribute) (rows : CatalogAttributes)
      → All (Settled rows) attributes
      → put_each draw now attributes rows ≡ (rows, 0)
  unfolding put_each
  Settled-put_each [] rows h = refl
  Settled-put_each (a ∷ others) rows ((r, found, kept), h) =
      rw
        (
          put_same (draw (length rows)) now a rows {r = r} found kept,
          Settled-put_each others rows h,
        )
        refl

-- A second call with the same attributes, at any time and whatever the chunks, changes no row and
-- returns 0, where every variant belongs to one product, as the foreign key of the table has it.
pub upsert_attributes-again :
    (product_of : ℕ → ℕ) (draw draw' : ℕ → ℕ) (now now' : ℕ) (attributes : List Attribute)
    (rows : CatalogAttributes)
    → All (OfProduct product_of) attributes
    → (let once = (upsert_attributes draw now attributes rows).0 in
        upsert_attributes draw' now' attributes once ≡ (once, 0))
upsert_attributes-again product_of draw draw' now now' attributes rows of_product =
    rw (upsert_attributes-put_each draw now attributes rows) (
      upsert_attributes-put_each draw' now' attributes _
      ∙ Settled-put_each draw' now' (in_order attributes) _ (
          put_each-Settled draw now (in_order attributes) rows
            (in_order-DistinctSlots product_of attributes of_product)))
