-- ===== src/Staged/Validity.antt =====
-- apps/backend/repositories/staged.py: the well-formedness of the staged rows, after any sequence of
-- operations.
use mathlib.Core.Path.{subst}
use elegance_shawls.Keyset.{after}
use elegance_shawls.Staged.Stepped.{Stepped, apply-Stepped}
use elegance_shawls.Staged.Rows.{StagedProduct, find_staged, Db}
use elegance_shawls.Staged.Staging.{Scraped, new_staged}
use elegance_shawls.Staged.Steps.{RowIsValid, apply, Op}
use elegance_shawls.Base.{
  All, All-append, All-find, All-replace, Distinct, Distinct-append, Distinct-replace, String, [],
  arith, find-key, none, refl, replace, some, ℕ, ◌∙◌, ◌≡◌, ap,
}

-- The primary key that the database draws for a new row is new.
abbrev pub Fresh : Op → Db → Type 0
Fresh (Op.stage new_id now s) db = find_staged new_id db ≡ none
Fresh _ db = Unit

abbrev pub IsValidDb : Db → Type 0
IsValidDb db = Distinct (λ r. r.id) db.staged × All RowIsValid db.staged

pub data Reach (strip : String → String) : Db → Type 0 where
  start : Reach strip (record { staged = []; audit = []; products = [] })
  next : {db : Db} (op : Op) → Reach strip db → Fresh op db → Reach strip (apply strip op db)

new_staged-valid : (id now : ℕ) (s : Scraped) → RowIsValid (new_staged id now s)
new_staged-valid id now s = record {
  product_known = λ h. absurd (ground arith);
  price_known = λ h. absurd (ground arith);
  stock_known = λ h. absurd (ground arith);
  reason_known = λ h. absurd (ground arith);
  product_absent = λ h. refl;
}

replaced-valid :
    (row row' : StagedProduct) (db db' : Db)
    → find_staged row'.id db ≡ some row
    → (RowIsValid row → RowIsValid row')
    → db'.staged ≡ replace (λ r. r.id) row'.id row' db.staged
    → IsValidDb db
    → IsValidDb db'
replaced-valid row row' db db' found valid after (d, v) = (
  rw after (Distinct-replace (λ r. r.id) row'.id row' db.staged refl d),
  rw after (
      All-replace (λ r. r.id) RowIsValid row'.id row' db.staged v
        (valid (All-find (λ r. r.id) RowIsValid row'.id db.staged v found))),
)

Stepped-valid :
    (op : Op) (db db' : Db) → Stepped db op db' → Fresh op db → IsValidDb db → IsValidDb db'
Stepped-valid op db db' (Stepped.nothing same) fresh v = subst IsValidDb same v
Stepped-valid op db db' (Stepped.added {now = now} {new_id = new_id} {s = s} entry staged audit)
      fresh (d, v) =
    (
      rw staged (Distinct-append (λ r. r.id) _ db.staged d fresh),
      rw staged (All-append RowIsValid db.staged _ v (new_staged-valid new_id now s, tt)),
    )
Stepped-valid op db db' (Stepped.rescraped row row' entry found same status valid staged audit)
      fresh v =
    replaced-valid row row' db db' (rw same found) valid staged v
Stepped-valid op db db' (Stepped.reviewed id row' w) fresh v =
    replaced-valid w.row row' db db'
      (ap (λ (n : ℕ). find_staged n db) (w.same_id ∙ find-key (λ k. k.id) id db.staged w.found)
        ∙ w.found)
      w.kept_valid w.staged_after v

-- After any sequence of scrapes and review actions, from an empty database and with new primary keys
-- for new rows: the staged rows have distinct primary keys; every approved, published or unpublished
-- row has a product, an approved price and a known stock; every rejected row has a reason of at
-- least three characters; and no row that awaits review has a product.
pub Reach-IsValidDb : (strip : String → String) {db : Db} → Reach strip db → IsValidDb db
Reach-IsValidDb strip Reach.start = (tt, tt)
Reach-IsValidDb strip (Reach.next {db = db} op r fresh) =
    let v = Reach-IsValidDb strip r in
    Stepped-valid op db (apply strip op db) (apply-Stepped strip op db v.0) fresh v
