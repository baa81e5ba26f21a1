-- ===== src/Attributes/Trust.antt =====
-- apps/backend/repositories/attributes.py: an upsert never lowers the trust of a stored attribute.
use mathlib.Core.Path.{subst}
use elegance_shawls.Attributes.Writes.{
  in_order, outcome, put_elsewhere, put_outcome, slot_eq_iff, upsert_attributes-put_each,
}
use elegance_shawls.Attributes.Rows.{
  CatalogAttribute, CatalogAttributes, Slot, attribute_slot, differs, lookup, outranks, overwritten,
  put, put_each, replaces, slot_eq, upsert_attributes, rank_at_least,
}
use elegance_shawls.Base.{
  Bool-cases, List, String, [], and_true, inl, inr, length, refl, some, sym, true, true-ne-false, ℕ,
  ◌∙◌, ◌∷◌, ◌≡◌, ◌≢◌, ◌⊎◌, Option, arith, none,
}
use elegance_shawls.Attributes.Values.{Attribute, source_rank}

-- A row is of the source of an older one, or of a source that outranks it.
abbrev pub KeepsTrust : CatalogAttribute → CatalogAttribute → Type 0
KeepsTrust old new = (new.source ≡ old.source) ⊎ (outranks new.source old.source ≡ true)

rank_trans :
    (n m k : Option ℕ)
    → rank_at_least n m ≡ true
    → rank_at_least m k ≡ true
    → rank_at_least n k ≡ true
rank_trans none m k p q = p
rank_trans (some n) none k p q = absurd (true-ne-false (sym p))
rank_trans (some n) (some m) none p q = q
rank_trans (some n) (some m) (some k) p q = ground arith

outranks_trans : (a b c : String) → outranks a b ≡ true → outranks b c ≡ true → outranks a c ≡ true
unfolding outranks
outranks_trans a b c = rank_trans (source_rank a) (source_rank b) (source_rank c)

KeepsTrust-trans : (r s t : CatalogAttribute) → KeepsTrust r s → KeepsTrust s t → KeepsTrust r t
KeepsTrust-trans r s t (inl p) (inl q) = inl (q ∙ p)
KeepsTrust-trans r s t (inl p) (inr q) = inr (subst (λ x. outranks t.source x ≡ true) p q)
KeepsTrust-trans r s t (inr p) (inl q) = inr (subst (λ x. outranks x r.source ≡ true) (sym q) p)
KeepsTrust-trans r s t (inr p) (inr q) = inr (outranks_trans t.source s.source r.source q p)

-- The row of a slot after a write.
abbrev pub Trusted : Slot → CatalogAttribute → CatalogAttributes → Type 0
Trusted s r rows = (r' : CatalogAttribute) × (lookup s rows ≡ some r') × KeepsTrust r r'

put-Trusted :
    (id now : ℕ) (a : Attribute) (s : Slot) (rows : CatalogAttributes) {r : CatalogAttribute}
    → lookup s rows ≡ some r
    → Trusted s r (put id now a rows).0
put-Trusted id now a s rows {r = r} found = elim (Bool-cases (slot_eq (attribute_slot a) s)) [
  | inr off ↦
      let ne : attribute_slot a ≢ s =
        λ e. true-ne-false (sym ((slot_eq_iff (attribute_slot a) s).1 e) ∙ off) in
      (r, put_elsewhere id now a s rows ne ∙ found, inl refl)
  | inl on ↦
      let same : attribute_slot a ≡ s = (slot_eq_iff (attribute_slot a) s).0 on in
      let here : lookup (attribute_slot a) rows ≡ some r = rw same found in
      let after : lookup s (put id now a rows).0 ≡ some (outcome id now a (some r)).0 =
        subst (λ x. lookup x (put id now a rows).0 ≡ some (outcome id now a (some r)).0) same
          (subst
            (λ o. lookup (attribute_slot a) (put id now a rows).0 ≡ some (outcome id now a o).0)
            here (put_outcome id now a rows).0) in
      elim (Bool-cases (replaces a r)) [
        | inl q ↦ (
          overwritten now a r,
          rw q at after,
          inr (and_true (outranks a.source r.source) (differs r a) q).0,
        )
        | inr q ↦ (r, rw q at after, inl refl)
      ]
]

put_each-Trusted :
    (draw : ℕ → ℕ) (now : ℕ) (attributes : List Attribute) (s : Slot) (rows : CatalogAttributes)
    {r : CatalogAttribute}
    → lookup s rows ≡ some r
    → Trusted s r (put_each draw now attributes rows).0
unfolding put_each
put_each-Trusted draw now [] s rows {r = r} found = (r, found, inl refl)
put_each-Trusted draw now (a ∷ others) s rows {r = r} found =
    let (r1, found1, kept1) = put-Trusted (draw (length rows)) now a s rows found in
    let (r2, found2, kept2) =
      put_each-Trusted draw now others s (put (draw (length rows)) now a rows).0 found1 in
    (r2, found2, KeepsTrust-trans r r1 r2 kept1 kept2)

-- Whatever the attributes of a call, a stored attribute is still stored after it, and its source is
-- the one before or outranks it: no call lowers the trust of an attribute.
pub upsert_attributes-Trusted :
    (draw : ℕ → ℕ) (now : ℕ) (attributes : List Attribute) (s : Slot) (rows : CatalogAttributes)
    (r : CatalogAttribute)
    → lookup s rows ≡ some r
    → Trusted s r (upsert_attributes draw now attributes rows).0
upsert_attributes-Trusted draw now attributes s rows r found =
    rw (upsert_attributes-put_each draw now attributes rows)
      (put_each-Trusted draw now (in_order attributes) s rows found)
