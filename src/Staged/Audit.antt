-- ===== src/Staged/Audit.antt =====
-- apps/backend/repositories/staged.py: how the status of a staged row changes, and its audit trail.
use mathlib.Core.Path.{subst}
use elegance_shawls.Staged.Steps.{apply, Op}
use elegance_shawls.Keyset.{after}
use elegance_shawls.Staged.Stepped.{Stepped, apply-Stepped}
use elegance_shawls.Staged.Rows.{AuditEntry, StagedProduct, can_transition, find_staged, Db}
use elegance_shawls.Base.{
  ◌++◌, ◌==◌, ==_iff, Bool-cases, Distinct, String, [], find-append_some, find-key, find-replace,
  inl, inr, refl, replace, some, some_inj, sym, true, ℕ, ◌∙◌, ◌∷◌, ◌≡◌, ap,
}

-- The row `i` keeps its status; or the status moves along the workflow, and the trail grows by the
-- one entry that names the row and both statuses.
pub data Audited (db db' : Db) (i : ℕ) (r r' : StagedProduct) : Type 0 where
  kept : r'.status ≡ r.status → Audited db db' i r r'
  moved :
      (entry : AuditEntry)
      → can_transition r.status r'.status ≡ true
      → db'.audit ≡ db.audit ++ entry ∷ []
      → entry.staged_product_id ≡ i
      → entry.from_status ≡ some r.status
      → entry.to_status ≡ some r'.status
      → Audited db db' i r r'

-- A row that is written back under its key is read there, and every other row is as before.
replaced :
    {R : StagedProduct → Type 0} (i : ℕ) (row row' : StagedProduct) (db db' : Db)
    {r : StagedProduct}
    → find_staged row'.id db ≡ some row
    → db'.staged ≡ replace (λ k. k.id) row'.id row' db.staged
    → find_staged i db ≡ some r
    → R r
    → (row'.id ≡ i → row ≡ r → R row')
    → (r' : StagedProduct) × (find_staged i db' ≡ some r') × R r'
replaced i row row' db db' {r} found after e stay move =
    let read = find-replace (λ k. k.id) row'.id i row' db.staged refl in
    elim (Bool-cases (row'.id == i)) [
      | inl p ↦
          let same : row'.id ≡ i = (==_iff row'.id i).0 p in
          (
            row',
            rw after (rw (p, found) at read),
            move same (some_inj (sym found ∙ ap (λ (n : ℕ). find_staged n db) same ∙ e)),
          )
      | inr p ↦ (r, rw after ((rw p at read) ∙ e), stay)
    ]

Stepped-Audited :
    (op : Op) (db db' : Db) (i : ℕ) {r : StagedProduct}
    → Stepped db op db'
    → find_staged i db ≡ some r
    → (r' : StagedProduct) × (find_staged i db' ≡ some r') × Audited db db' i r r'
Stepped-Audited op db db' i {r} (Stepped.nothing same) e =
    (r, ap (λ (d : Db). find_staged i d) (sym same) ∙ e, Audited.kept refl)
Stepped-Audited op db db' i {r} (Stepped.added entry staged audit) e =
    (r, rw staged (find-append_some (λ k. k.id) i db.staged _ e), Audited.kept refl)
Stepped-Audited op db db' i {r}
      (Stepped.rescraped row row' entry found same status valid staged audit) e =
    replaced {R = λ r'. Audited db db' i r r'} i row row' db db' (rw same found) staged e
      (Audited.kept refl) (λ at is. Audited.kept (status ∙ ap (λ (k : StagedProduct). k.status) is))
Stepped-Audited op db db' i {r} (Stepped.reviewed id row' v) e =
    let key : v.row.id ≡ id = find-key (λ k. k.id) id db.staged v.found in
    replaced {R = λ r'. Audited db db' i r r'} i v.row row' db db'
      (ap (λ (n : ℕ). find_staged n db) (v.same_id ∙ key) ∙ v.found) v.staged_after e
      (Audited.kept refl)
      (λ at is.
        Audited.moved v.entry
          (subst (λ (k : StagedProduct). can_transition k.status row'.status ≡ true) is v.legal)
          v.audit_after (v.entry_id ∙ sym key ∙ sym v.same_id ∙ at)
          (v.entry_from ∙ ap (λ (k : StagedProduct). some k.status) is) v.entry_to)

-- If the staged rows have distinct primary keys, then whatever operation runs, a staged row that was
-- there is still there under its key, and its status is the same or has moved along the review
-- workflow; where it has moved, the audit trail has grown by exactly one entry, which names the row,
-- the status that it had and the status that it has.
pub apply-Audited :
    (strip : String → String) (op : Op) (db : Db) (i : ℕ) {r : StagedProduct}
    → Distinct (λ k. k.id) db.staged
    → find_staged i db ≡ some r
    → (r' : StagedProduct) × (find_staged i (apply strip op db) ≡ some r')
      × Audited db (apply strip op db) i r r'
apply-Audited strip op db i d e =
    Stepped-Audited op db (apply strip op db) i (apply-Stepped strip op db d) e
