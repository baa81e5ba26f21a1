-- ===== src/Staged/Stepped.antt =====
-- apps/backend/repositories/staged.py: what any operation may do to the staged rows and the trail.
use elegance_shawls.Staged.Reviews.{
  archive-returned, publish-returned, reject-returned, unpublish-returned,
}
use elegance_shawls.Staged.Approval.{approve-returned}
use elegance_shawls.Staged.Staging.{
  Scraped, dedupe_key_of, find_dedupe, flagged, is_pending, new_staged, refreshed, restage,
  stage_product,
}
use elegance_shawls.Staged.Steps.{Reviewed, RowIsValid, apply, committed, Op}
use elegance_shawls.Catalogue.Errors.{Result, raised, returned}
use mathlib.Core.List.{Memᴰ}
use elegance_shawls.Staged.Rows.{AuditEntry, StagedProduct, find_staged, Db}
use elegance_shawls.Base.{
  ◌&&◌, ◌++◌, Bool-cases, Distinct, List, Option-cases, String, [], arith, find-member, inl, inr,
  refl, replace, some, some_inj, str_eq, sym, ℕ, ◌∷◌, ◌≡◌,
}

-- Nothing; or a new row that awaits review; or a scrape's rewriting of a row, which keeps its status;
-- or a review action.
pub data Stepped (db : Db) : Op → Db → Type 0 where
  nothing : {op : Op} {db' : Db} → db ≡ db' → Stepped db op db'
  added :
      {now new_id : ℕ} {s : Scraped} {db' : Db} (entry : AuditEntry)
      → db'.staged ≡ db.staged ++ new_staged new_id now s ∷ []
      → db'.audit ≡ db.audit ++ entry ∷ []
      → Stepped db (Op.stage new_id now s) db'
  rescraped :
      {op : Op} {db' : Db} (row row' : StagedProduct) (entry : AuditEntry)
      → find_staged row.id db ≡ some row
      → row'.id ≡ row.id
      → row'.status ≡ row.status
      → (RowIsValid row → RowIsValid row')
      → db'.staged ≡ replace (λ r. r.id) row'.id row' db.staged
      → db'.audit ≡ db.audit ++ entry ∷ []
      → Stepped db op db'
  reviewed :
      {op : Op} {db' : Db} (id : ℕ) (row' : StagedProduct)
      → Reviewed id db db' row'
      → Stepped db op db'

pub committed_cases :
    {R : Db → Type 0} (db : Db) (m : Result (Db × StagedProduct))
    → R db
    → ((db' : Db) (row' : StagedProduct) → m ≡ returned (db', row') → R db')
    → R (committed db m)
committed_cases db (returned (db', row')) stay go = go db' row' refl
committed_cases db (raised x) stay go = stay

find_dedupe-Mem :
    (source_id key : String) (rows : List StagedProduct) {r : StagedProduct}
    → find_dedupe source_id key rows ≡ some r
    → Memᴰ r rows
unfolding find_dedupe
find_dedupe-Mem source_id key [] e = absurd (ground arith)
find_dedupe-Mem source_id key (x ∷ xs) e =
    elim (Bool-cases (str_eq x.source_id source_id && str_eq x.dedupe_key key)) [
      | inl h ↦ Memᴰ.head (some_inj (sym (rw h at e)))
      | inr h ↦ Memᴰ.tail (find_dedupe-Mem source_id key xs (rw h at e))
    ]

refreshed-valid :
    (now : ℕ) (s : Scraped) (row : StagedProduct)
    → RowIsValid row
    → RowIsValid (refreshed now s row)
refreshed-valid now s row v = record {
  product_known = v.product_known;
  price_known = v.price_known;
  stock_known = v.stock_known;
  reason_known = v.reason_known;
  product_absent = v.product_absent;
}

flagged-valid :
    (now : ℕ) (s : Scraped) (row : StagedProduct) → RowIsValid row → RowIsValid (flagged now s row)
flagged-valid now s row v = record {
  product_known = v.product_known;
  price_known = v.price_known;
  stock_known = v.stock_known;
  reason_known = v.reason_known;
  product_absent = v.product_absent;
}

restage-Stepped :
    (new_id now : ℕ) (s : Scraped) (row : StagedProduct) (db : Db)
    → find_staged row.id db ≡ some row
    → Stepped db (Op.stage new_id now s) (restage now s row db).0
unfolding restage
restage-Stepped new_id now s row db found =
    elim (Bool-cases (str_eq row.source_content_hash s.source_content_hash)) [
      | inl same ↦ rw same (Stepped.nothing refl)
      | inr differs ↦ elim (Bool-cases (is_pending row.status)) [
        | inl p ↦
            rw (differs, p)
              (Stepped.rescraped row (refreshed now s row) _ found refl refl
                (refreshed-valid now s row) refl refl)
        | inr p ↦
            rw (differs, p)
              (Stepped.rescraped row (flagged now s row) _ found refl refl (flagged-valid now s row)
                refl refl)
      ]
    ]

pub apply-Stepped :
    (strip : String → String) (op : Op) (db : Db)
    → Distinct (λ r. r.id) db.staged
    → Stepped db op (apply strip op db)
unfolding apply stage_product
apply-Stepped strip (Op.stage new_id now s) db d =
    elim (Option-cases (find_dedupe s.source_id (dedupe_key_of s) db.staged)) [
      | inl e ↦ rw (e, apply, stage_product) (Stepped.added _ refl refl)
      | inr (row, e) ↦
          rw (e, apply, stage_product)
            (restage-Stepped new_id now s row db
              (find-member (λ r. r.id) db.staged d (find_dedupe-Mem _ _ db.staged e)))
    ]
apply-Stepped strip (Op.reject_row id reason actor now) db d =
    committed_cases {R = Stepped db (Op.reject_row id reason actor now)} db _ (Stepped.nothing refl)
      (λ db' row' e. Stepped.reviewed id row' (reject-returned strip id reason actor now db e).0)
apply-Stepped strip (Op.approve_row creation id price stock actor now) db d =
    committed_cases {R = Stepped db (Op.approve_row creation id price stock actor now)} db _
      (Stepped.nothing refl)
      (λ db' row' e.
        Stepped.reviewed id row' (approve-returned creation id price stock actor now db e).0)
apply-Stepped strip (Op.publish_row id actor now) db d =
    committed_cases {R = Stepped db (Op.publish_row id actor now)} db _ (Stepped.nothing refl)
      (λ db' row' e. Stepped.reviewed id row' (publish-returned id actor now db e).0)
apply-Stepped strip (Op.unpublish_row id actor now) db d =
    committed_cases {R = Stepped db (Op.unpublish_row id actor now)} db _ (Stepped.nothing refl)
      (λ db' row' e. Stepped.reviewed id row' (unpublish-returned id actor now db e).0)
apply-Stepped strip (Op.archive_row id actor now) db d =
    committed_cases {R = Stepped db (Op.archive_row id actor now)} db _ (Stepped.nothing refl)
      (λ db' row' e. Stepped.reviewed id row' (archive-returned id actor now db e).0)
