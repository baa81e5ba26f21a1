-- ===== src/Attributes/Rows.antt =====
-- apps/backend/repositories/attributes.py over the class CatalogAttribute of
-- apps/backend/models/relational_model.py: the bulk upsert.
use elegance_shawls.Attributes.Values.{Attribute, source_rank}
use elegance_shawls.Base.{
  ◌&&◌, ◌+◌, ◌==◌, Bool, List, Option, String, [], drop, if◌then◌else◌, false, is_some, leb, length,
  none, not, select, some, str_eq, suc, take, true, zero, ℕ, ◌∷◌,
}

pub record CatalogAttribute : Type 0 where
  pub id : ℕ
  pub product_id : ℕ
  pub variant_id : Option ℕ
  pub key : String
  pub value : Option String
  pub source : String
  pub model_version : Option String
  pub approved_by : Option String
  pub approved_at : Option ℕ
  pub created_at : ℕ
  pub updated_at : ℕ

abbrev pub CatalogAttributes : Type 0
CatalogAttributes = List CatalogAttribute

-- The two partial unique indexes: a product's own attribute by product and key, a variant's by
-- variant and key.
pub data Slot : Type 0 where
  of_product of_variant : (owner : ℕ) → (key : String) → Slot

abbrev pub slot_eq : Slot → Slot → Bool
slot_eq (Slot.of_product a k) (Slot.of_product b l) = a == b && str_eq k l
slot_eq (Slot.of_variant a k) (Slot.of_variant b l) = a == b && str_eq k l
slot_eq _ _ = false

abbrev pub slot : ℕ → Option ℕ → String → Slot
slot product_id none key = Slot.of_product product_id key
slot product_id (some v) key = Slot.of_variant v key

abbrev pub row_slot : CatalogAttribute → Slot
row_slot r = slot r.product_id r.variant_id r.key

abbrev pub attribute_slot : Attribute → Slot
attribute_slot a = slot a.product_id a.variant_id a.key

unfoldable pub lookup : Slot → CatalogAttributes → Option CatalogAttribute
lookup s [] = none
lookup s (r ∷ rs) = if slot_eq (row_slot r) s then some r else lookup s rs

-- A comparison of ranks: a source without a rank compares as null.
abbrev pub rank_at_least : Option ℕ → Option ℕ → Bool
rank_at_least none m = false
rank_at_least (some n) none = false
rank_at_least (some n) (some m) = leb m n

-- `_rank(new.source) >= _rank(CatalogAttribute.source)`
unfoldable pub outranks : String → String → Bool
unfolding source_rank
outranks new old = rank_at_least (source_rank new) (source_rank old)

abbrev pub text_opt_eq : Option String → Option String → Bool
text_opt_eq none none = true
text_opt_eq (some t) (some u) = str_eq t u
text_opt_eq _ _ = false

abbrev pub time_opt_eq : Option ℕ → Option ℕ → Bool
time_opt_eq none none = true
time_opt_eq (some t) (some u) = t == u
time_opt_eq _ _ = false

-- The columns _VALUES are distinct from the attribute's.
unfoldable pub differs : CatalogAttribute → Attribute → Bool
differs r a = not (
    text_opt_eq r.value a.value
    && str_eq r.source a.source
    && text_opt_eq r.model_version a.model_version
    && text_opt_eq r.approved_by a.approved_by
    && time_opt_eq r.approved_at a.approved_at)

abbrev pub inserted : ℕ → ℕ → Attribute → CatalogAttribute
inserted id now a = record {
  id = id;
  product_id = a.product_id;
  variant_id = a.variant_id;
  key = a.key;
  value = a.value;
  source = a.source;
  model_version = a.model_version;
  approved_by = a.approved_by;
  approved_at = a.approved_at;
  created_at = now;
  updated_at = now;
}

abbrev pub overwritten : ℕ → Attribute → CatalogAttribute → CatalogAttribute
overwritten now a r = record r {
  value = a.value;
  source = a.source;
  model_version = a.model_version;
  approved_by = a.approved_by;
  approved_at = a.approved_at;
  updated_at = now;
}

abbrev pub replaces : Attribute → CatalogAttribute → Bool
replaces a r = outranks a.source r.source && differs r a

-- One row of `INSERT … ON CONFLICT DO UPDATE … WHERE … RETURNING`: the table, and whether a row is
-- returned.
unfoldable pub put : ℕ → ℕ → Attribute → CatalogAttributes → CatalogAttributes × Bool
put id now a [] = (inserted id now a ∷ [], true)
put id now a (r ∷ rs) =
    let rest = put id now a rs in
    if slot_eq (row_slot r) (attribute_slot a)
    then (if replaces a r then (overwritten now a r ∷ rs, true) else (r ∷ rs, false))
    else (r ∷ rest.0, rest.1)

-- The rows of a statement, one after the other, and how many are returned; `draw` gives the primary
-- keys by the rows before.
unfoldable pub put_each : (ℕ → ℕ) → ℕ → List Attribute → CatalogAttributes → CatalogAttributes × ℕ
unfolding put
put_each draw now [] rows = (rows, 0)
put_each draw now (a ∷ others) rows =
    let step = put (draw (length rows)) now a rows in
    let rest = put_each draw now others step.0 in (rest.0, (if step.1 then 1 else 0) + rest.1)

abbrev pub id_opt_eq : Option ℕ → Option ℕ → Bool
id_opt_eq none none = true
id_opt_eq (some a) (some b) = a == b
id_opt_eq _ _ = false

abbrev pub same_entry : Attribute → Attribute → Bool
same_entry a b =
    a.product_id == b.product_id && id_opt_eq a.variant_id b.variant_id && str_eq a.key b.key

-- An assignment into the dict: in the place of an older entry of its key, or at the end.
unfoldable pub assign : Attribute → List Attribute → List Attribute
assign a [] = a ∷ []
assign a (b ∷ bs) = if same_entry b a then a ∷ bs else b ∷ assign a bs

-- The dict comprehension, onto the entries `seen` so far: the last of a key wins.
unfoldable pub unique_onto : List Attribute → List Attribute → List Attribute
unfolding assign
unique_onto seen [] = seen
unique_onto seen (a ∷ others) = unique_onto (assign a seen) others

abbrev pub is_product_level : Attribute → Bool
is_product_level a = not (is_some a.variant_id)

-- CHUNK
abbrev pub chunk : ℕ
chunk = 1000

-- `for i in range(0, len(rows), CHUNK)`: one statement for each chunk. The fuel is the number of rows.
unfoldable pub put_chunks :
    (ℕ → ℕ) → ℕ → ℕ → ℕ → List Attribute → CatalogAttributes → CatalogAttributes × ℕ
unfolding put_each
put_chunks draw now size zero attributes rows = (rows, 0)
put_chunks draw now size (suc fuel) [] rows = (rows, 0)
put_chunks draw now size (suc fuel) (a ∷ others) rows =
    let step = put_each draw now (take size (a ∷ others)) rows in
    let rest = put_chunks draw now size fuel (drop size (a ∷ others)) step.0 in
    (rest.0, step.1 + rest.1)

-- `upsert_attributes`: the table and the number of rows that are inserted or changed.
unfoldable pub upsert_attributes :
    (ℕ → ℕ) → ℕ → List Attribute → CatalogAttributes → CatalogAttributes × ℕ
unfolding put_chunks unique_onto
upsert_attributes draw now attributes rows =
    let unique = unique_onto [] attributes in
    let own = select is_product_level unique in
    let variants = select (λ a. not (is_product_level a)) unique in
    let first = put_chunks draw now chunk (length own) own rows in
    let second = put_chunks draw now chunk (length variants) variants first.0 in
    (second.0, first.1 + second.1)
