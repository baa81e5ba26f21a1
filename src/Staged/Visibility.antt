-- ===== src/Staged/Visibility.antt =====
-- apps/backend/repositories/staged.py: which operation on staged products makes a product public.
use mathlib.Core.Path.{subst}
use elegance_shawls.Staged.Stepped.{committed_cases}
use elegance_shawls.Staged.Approval.{approve-returned}
use elegance_shawls.Catalogue.Errors.{StagedStatus}
use elegance_shawls.Staged.Rows.{StagedProduct, find_product, find_staged, Db}
use elegance_shawls.Staged.Reviews.{
  Shown, archive-returned, publish-returned, reject-returned, unpublish-returned,
}
use elegance_shawls.Staged.Staging.{Scraped, restage, stage_product}
use elegance_shawls.Staged.Steps.{Reviewed, apply, Op}
use elegance_shawls.Catalogue.Products.{set_state_unless_archived, with_status}
use elegance_shawls.Staged.Review.{set_product_state}
use elegance_shawls.Catalogue.Rows.{
  Product, ProductStatus, is_archived, is_active, is_active_status,
}
use elegance_shawls.Base.{
  ◌==◌, ==_iff, Bool-cases, List, Option, Option-cases, find, find-key, find-replace, inl, inr,
  none, not, some, some_inj, sym, update_where_absent, update_where_hit, update_where_miss, ℕ, ◌∙◌,
  ◌≡◌, ◌⊎◌, ap, ◌++◌, ==_refl, String, [], arith, false, is_text, refl, true, ◌∷◌,
}

-- A product after a change of one product's state is as before, or has the state given.
set_product_state-read :
    (product_id : Option ℕ) (status : ProductStatus) (now : ℕ) (products : List Product) (i : ℕ)
    {p' : Product}
    → find (λ p. p.id) i (set_product_state product_id status now products).0 ≡ some p'
    → (find (λ p. p.id) i products ≡ some p') ⊎ ((product_id ≡ some i) × (p'.status ≡ status))
unfolding set_product_state set_state_unless_archived
set_product_state-read none status now products i e = inl e
set_product_state-read (some k) status now products i {p'} e =
    elim (Option-cases (find (λ p. p.id) k products)) [
      | inl q ↦
          inl (rw (update_where_absent (λ p. p.id) k _ (with_status status now) products q) at e)
      | inr (p, q) ↦ elim (Bool-cases (not (is_archived p.status))) [
        | inr t ↦
            inl (rw (update_where_miss (λ p. p.id) k _ (with_status status now) products q t) at e)
        | inl t ↦
            let key : p.id ≡ k = find-key (λ p. p.id) k products q in
            let read = find-replace (λ p. p.id) k i (with_status status now p) products key in
            let e1 =
              (rw (update_where_hit (λ p. p.id) k _ (with_status status now) products q t) at e) in
            elim (Bool-cases (k == i)) [
              | inl at ↦
                  let same : with_status status now p ≡ p' =
                    some_inj (sym (rw (at, q) at read) ∙ e1) in
                  inr (ap some ((==_iff k i).0 at), ap (λ (r : Product). r.status) (sym same))
              | inr off ↦ inl (sym (rw off at read) ∙ e1)
            ]
      ]
    ]

-- Why the product `i` is public after an operation: it was before, or the operation is a publish by
-- a named actor, and the staged row that it published is the product's.
pub data IsPublic (db db' : Db) (i : ℕ) : Op → Type 0 where
  was_public :
      {op : Op} (p : Product)
      → find_product i db ≡ some p
      → is_active p ≡ true
      → IsPublic db db' i op
  published :
      {id now : ℕ} {actor : String} (row' : StagedProduct)
      → is_text actor ≡ true
      → find_staged id db' ≡ some row'
      → row'.status ≡ StagedStatus.published
      → row'.product_id ≡ some i
      → IsPublic db db' i (Op.publish_row id actor now)

same_products :
    (op : Op) (db db' : Db) (i : ℕ) {p' : Product}
    → db'.products ≡ db.products
    → find_product i db' ≡ some p'
    → is_active p' ≡ true
    → IsPublic db db' i op
same_products op db db' i {p' = p'} same e h = IsPublic.was_public p' (rw same at e) h

pub Reviewed-read :
    (id : ℕ) (db db' : Db) (row' : StagedProduct)
    → Reviewed id db db' row'
    → find_staged id db' ≡ some row'
Reviewed-read id db db' row' v =
    let key : row'.id ≡ id = v.same_id ∙ find-key (λ k. k.id) id db.staged v.found in
    let found : find_staged row'.id db ≡ some v.row =
      ap (λ (n : ℕ). find_staged n db) key ∙ v.found in
    let read = find-replace (λ k. k.id) row'.id row'.id row' db.staged refl in
    subst (λ n. find_staged n db' ≡ some row') key
      (rw v.staged_after (rw (==_refl row'.id, found) at read))

hidden :
    (op : Op) (status : ProductStatus) (now : ℕ) (db db' : Db) (row' : StagedProduct) (i : ℕ)
    {p' : Product}
    → is_active_status status ≡ false
    → Shown status now db db' row'
    → find_product i db' ≡ some p'
    → is_active p' ≡ true
    → IsPublic db db' i op
hidden op status now db db' row' i {p' = p'} off s e h =
    elim (set_product_state-read row'.product_id status now db.products i
      (rw s.products_after at e)) [
        | inl before ↦ IsPublic.was_public p' before h
        | inr (owner, at) ↦ absurd (ground arith)
      ]

find-append_last :
    (i : ℕ) (created : Product) (products : List Product) {p' : Product}
    → find (λ p. p.id) i (products ++ created ∷ []) ≡ some p'
    → (find (λ p. p.id) i products ≡ some p') ⊎ (created ≡ p')
unfolding find
find-append_last i created [] e = inr (ground arith)
find-append_last i created (p ∷ ps) {p' = p'} e = elim (Bool-cases (p.id == i)) [
  | inl q ↦ inl (rw q (rw q at e))
  | inr q ↦ rw q (find-append_last i created ps (rw q at e))
]

restage-products :
    (now : ℕ) (s : Scraped) (row : StagedProduct) (db : Db)
    → (restage now s row db).0.products ≡ db.products
unfolding restage
restage-products now s row db = ground arith

stage_product-products :
    (new_id now : ℕ) (s : Scraped) (db : Db)
    → (stage_product new_id now s db).0.products ≡ db.products
unfolding stage_product
stage_product-products new_id now s db =
    ground (arith, λ (row : StagedProduct). restage-products now s row db)

-- If a product is public after one of the six operations on staged products (the catalogue's own changes
-- of a product's status are none of them), then it was public before it, or the operation is a
-- publish with an identified actor, the staged row that it names is now published, and that row's
-- product is this one. No scrape, approval, rejection, unpublishing or archiving makes a product
-- public.
pub apply-IsPublic :
    (strip : String → String) (op : Op) (db : Db) (i : ℕ) {p' : Product}
    → find_product i (apply strip op db) ≡ some p'
    → is_active p' ≡ true
    → IsPublic db (apply strip op db) i op
unfolding apply
apply-IsPublic strip (Op.stage new_id now s) db i e h =
    same_products _ db _ i (stage_product-products new_id now s db) e h
apply-IsPublic strip (Op.reject_row id reason actor now) db i {p' = p'} e h =
    committed_cases
      {R = λ d. find_product i d ≡ some p' → IsPublic db d i (Op.reject_row id reason actor now)} db
      _ (λ r. IsPublic.was_public p' r h)
      (λ db' row' m r.
        same_products _ db db' i (reject-returned strip id reason actor now db m).1 r h)
      e
apply-IsPublic strip (Op.approve_row creation id price stock actor now) db i {p' = p'} e h =
    committed_cases
      {R = λ d.
        find_product i d ≡ some p'
        → IsPublic db d i (Op.approve_row creation id price stock actor now)}
      db _ (λ r. IsPublic.was_public p' r h)
      (λ db' row' m r.
        let (v, created, appended, owner, drawn, is_draft) =
          approve-returned creation id price stock actor now db m in
        elim (find-append_last i created db.products (rw appended at r)) [
          | inl before ↦ IsPublic.was_public p' before h
          | inr same ↦ absurd (ground arith)
        ])
      e
apply-IsPublic strip (Op.publish_row id actor now) db i {p' = p'} e h =
    committed_cases
      {R = λ d. find_product i d ≡ some p' → IsPublic db d i (Op.publish_row id actor now)} db _
      (λ r. IsPublic.was_public p' r h)
      (λ db' row' m r.
        let (v, s, named) = publish-returned id actor now db m in
        elim (set_product_state-read row'.product_id ProductStatus.active now db.products i
          (rw s.products_after at r)) [
            | inl before ↦ IsPublic.was_public p' before h
            | inr (owner, at) ↦
                IsPublic.published row' named (Reviewed-read id db db' row' v) s.status_after owner
          ])
      e
apply-IsPublic strip (Op.unpublish_row id actor now) db i {p' = p'} e h =
    committed_cases
      {R = λ d. find_product i d ≡ some p' → IsPublic db d i (Op.unpublish_row id actor now)} db _
      (λ r. IsPublic.was_public p' r h)
      (λ db' row' m r.
        hidden _ ProductStatus.draft now db db' row' i refl (unpublish-returned id actor now db m).1
          r h)
      e
apply-IsPublic strip (Op.archive_row id actor now) db i {p' = p'} e h =
    committed_cases
      {R = λ d. find_product i d ≡ some p' → IsPublic db d i (Op.archive_row id actor now)} db _
      (λ r. IsPublic.was_public p' r h)
      (λ db' row' m r.
        hidden _ ProductStatus.archived now db db' row' i refl
          (archive-returned id actor now db m).1 r h)
      e
