-- ===== src/Embeddings/Published.antt =====
-- `process` of apps/backend/search/embedding_service.py: what stands in the table once it reports a
-- published vector.

use elegance_shawls.Embeddings.Checked.{embed_checked-IsChecked}
use elegance_shawls.Embeddings.Sources.{Source, is_match, same_provider}
use elegance_shawls.Embeddings.Provider.{Checked, embed_checked, EmbeddingError}
use mathlib.Core.Path.{subst}
use elegance_shawls.Embeddings.Rows.{
  EmbeddingRow, EmbeddingRows, complete, embedded, find_row, holds_lease, is_succeeded, outdated,
  retire, Ending, finish, claim,
}
use elegance_shawls.Base.{
  ==_refl, Bool-cases, Option, Option-cases, String, find, find-map, inl, inr, is_some, refl,
  replace, some, sym, true, true-ne-false, update_where, update_where_absent, update_where_hit,
  update_where_miss, ℕ, ◌∙◌, ◌≡◌, ap, Bool, List, arith, find-key, find-replace, length,
  some-ne-none, ◌==◌, [], if◌then◌else◌, false, none, not, some_inj, ◌||◌, ◌∷◌, ◌&&◌, ltb,
  inl-ne-inr, inr_inj, result-cases,
}
use elegance_shawls.Embeddings.Process.{
  Answer, publish, process, run_claimed, run_source, after_claim, embedding_dimensions,
  stored_vector, Worker, embedded_text, only_vector, provider_failed,
}

-- The new vector is not retired with the older ones.
outdated_self : (row : EmbeddingRow) (now : ℕ) → outdated row now row ≡ row
outdated_self row now = rw (==_refl row.id, ==_refl row.owner_id) refl

-- Other sessions leave the row of a key as it is: a transaction holds the lock of a row that it wrote.
abbrev pub Keeps : ℕ → (EmbeddingRows → EmbeddingRows) → Type 0
Keeps id meanwhile =
    (rows : EmbeddingRows) (r : EmbeddingRow)
    → find_row id rows ≡ some r
    → find_row id (meanwhile rows) ≡ some r

-- A completion that reports success has stored the vector under its key.
complete-stored :
    (id : ℕ) (owner vector : String) (now : ℕ) (meanwhile : EmbeddingRows → EmbeddingRows)
    (rows : EmbeddingRows)
    → Keeps id meanwhile
    → is_some (complete id owner vector now meanwhile rows).1 ≡ true
    → (r : EmbeddingRow) × (find_row id (complete id owner vector now meanwhile rows).0 ≡ some r)
      × (is_succeeded r.status ≡ true)
      × (r.embedding ≡ some vector)
unfolding complete retire
complete-stored id owner vector now meanwhile rows keeps h =
    let key : EmbeddingRow → ℕ = λ r. r.id in
    let held : EmbeddingRows × Option EmbeddingRow → Type 0 = λ d.
      (is_some (retire now meanwhile d).1 ≡ true)
      → (r : EmbeddingRow) × (find_row id (retire now meanwhile d).0 ≡ some r)
        × (is_succeeded r.status ≡ true)
        × (r.embedding ≡ some vector) in
    let test = holds_lease owner in
    let f = embedded vector now in
    elim (Option-cases (find key id rows)) as (λ _. held (update_where key id test f rows)) [
      | inl q ↦
          subst held (sym (update_where_absent key id test f rows q))
            (λ e. absurd (true-ne-false (sym e)))
      | inr (p, q) ↦ elim (Bool-cases (test p)) as (λ _. held (update_where key id test f rows)) [
        | inr s ↦
            subst held (sym (update_where_miss key id test f rows q s))
              (λ e. absurd (true-ne-false (sym e)))
        | inl s ↦ subst held (sym (update_where_hit key id test f rows q s)) (λ e.
            let written : find key id (replace key id (f p) rows) ≡ some (f p) =
              rw (==_refl id, q) at (find-replace key id id (f p) rows (find-key key id rows q)) in
            (
              f p,
              find-map key (outdated (f p) now) id (meanwhile (replace key id (f p) rows))
                    (λ r. ground arith) (keeps _ (f p) written)
                  ∙ ap some (outdated_self (f p) now),
              refl,
              refl,
            ))
      ]
    ]
      h

not_stale : (b : Bool) → (if b then Answer.stale else Answer.lease_lost) ≡ Answer.succeeded → ⊥
not_stale true e = cc e
not_stale false e = cc e

was_done :
    (b : Bool) → (if b then Answer.succeeded else Answer.lease_lost) ≡ Answer.succeeded → b ≡ true
was_done true e = refl
was_done false e = cc e

only_vector_of :
    (answer : Checked (List (List String))) (vector : List String)
    → only_vector answer ≡ inr vector
    → answer ≡ inr (vector ∷ [])
unfolding only_vector
only_vector_of (inl error) vector e = absurd (inl-ne-inr e)
only_vector_of (inr []) vector e = absurd (inl-ne-inr e)
only_vector_of (inr (v ∷ [])) vector e = ap (λ x. inr (x ∷ [])) (inr_inj e)
only_vector_of (inr (v ∷ u ∷ vs)) vector e = absurd (inl-ne-inr e)

module _ (w : Worker) where
  -- The row of the primary key holds a vector, of the column's width, for the source that was read
  -- under row locks in the same transaction.
  abbrev pub Stored : ℕ → EmbeddingRow → EmbeddingRows → Type 0
  Stored id row rows' =
      (current : Option Source) × (vector : List String) × (r : EmbeddingRow) × (w.load 2
          row.owner_id
        ≡ inr current)
      × (is_match current row ≡ true)
      × (length vector ≡ embedding_dimensions)
      × (find_row id rows' ≡ some r)
      × (is_succeeded r.status ≡ true)
      × (r.embedding ≡ some (stored_vector vector))

  publish-Stored :
      (id : ℕ) (row : EmbeddingRow) (vector : List String) (rows rows' : EmbeddingRows)
      → Keeps id (w.others 3)
      → length vector ≡ embedding_dimensions
      → publish w id row vector rows ≡ (rows', some Answer.succeeded)
      → Stored id row rows'
  unfolding publish
  publish-Stored id row vector rows rows' keeps width e =
      elim (result-cases (w.load 2 row.owner_id)) [
        | inl (error, q) ↦ absurd (some-ne-none (sym (ap (λ d. d.1) (rw (publish, q) at e))))
        | inr (current, q) ↦ elim (Bool-cases (is_match current row)) [
          | inr p ↦ absurd (
              not_stale
                (is_some
                  (finish id w.owner Ending.stale (some "source changed during embedding") none
                    w.now rows).1)
                (some_inj (ap (λ d. d.1) (rw (publish, q, p) at e))))
          | inl p ↦
              let done = complete id w.owner (stored_vector vector) w.now (w.others 3) rows in
              let report = rw (publish, q, p) at e in
              let (r, found, live, stored) =
                complete-stored id w.owner (stored_vector vector) w.now (w.others 3) rows keeps
                  (was_done (is_some done.1) (some_inj (ap (λ d. d.1) report))) in
              (
                current,
                vector,
                r,
                q,
                p,
                width,
                subst (λ t. find_row id t ≡ some r) (ap (λ d. d.0) report) found,
                live,
                stored,
              )
        ]
      ]

  -- A vector that is used comes from a checked call.
  text-width :
      (row : EmbeddingRow) (text : String) (vector : List String)
      → embedded_text w row text ≡ inr vector
      → length vector ≡ embedding_dimensions
  unfolding embedded_text
  text-width row text vector e =
      elim (Bool-cases (
        not (same_provider w.provider row.identity)
        || not (w.provider.dimensions == embedding_dimensions))) [
          | inl q ↦ absurd (inl-ne-inr (rw q at e))
          | inr q ↦
              let answer = embed_checked w.is_blank w.decimal w.provider w.embed (text ∷ []) in
              let only = rw q at e in
              let result : embed_checked w.is_blank w.decimal w.provider w.embed (text ∷ [])
                  ≡ inr (vector ∷ []) =
                only_vector_of answer vector only in
              let checked =
                embed_checked-IsChecked w.is_blank w.decimal w.provider w.embed (text ∷ [])
                  (vector ∷ []) result in
              checked.1.0 ∙ ground arith
        ]

  failed-answer :
      (id : ℕ) (row : EmbeddingRow) (error : EmbeddingError) (rows : EmbeddingRows)
      → (provider_failed w id row error rows).1 ≡ Answer.succeeded
      → ⊥
  unfolding provider_failed
  failed-answer id row error rows e =
      elim (Bool-cases (error.retryable && ltb row.attempts row.max_attempts)) [
        | inl q ↦ cc (rw (provider_failed, q) at e)
        | inr q ↦ cc (rw (provider_failed, q) at e)
      ]

  source-Stored :
      (id : ℕ) (row : EmbeddingRow) (text : String) (rows rows' : EmbeddingRows)
      → Keeps id (w.others 3)
      → run_source w id row text rows ≡ (rows', some Answer.succeeded)
      → Stored id row rows'
  unfolding run_source
  source-Stored id row text rows rows' keeps e = elim (result-cases (embedded_text w row text)) [
    | inl (error, q) ↦
        absurd
          (failed-answer id row error rows (some_inj (ap (λ d. d.1) (rw (run_source, q) at e))))
    | inr (vector, q) ↦
        publish-Stored id row vector (w.others 2 rows) rows' keeps (text-width row text vector q)
          (rw (run_source, q) at e)
  ]

  claimed-Stored :
      (id : ℕ) (row : EmbeddingRow) (rows rows' : EmbeddingRows)
      → Keeps id (w.others 3)
      → run_claimed w id row rows ≡ (rows', some Answer.succeeded)
      → Stored id row rows'
  unfolding run_claimed
  claimed-Stored id row rows rows' keeps e = elim (result-cases (w.load 1 row.owner_id)) [
    | inl (error, q) ↦ cc (ap (λ d. d.1) (rw (run_claimed, q) at e))
    | inr (none, q) ↦ cc (ap (λ d. d.1) (rw (run_claimed, q) at e))
    | inr (some source, q) ↦ elim (Bool-cases (is_match (some source) row)) [
      | inl p ↦
          source-Stored id row source.representation.text rows rows' keeps
            (rw (run_claimed, q, p) at e)
      | inr p ↦ cc (ap (λ d. d.1) (rw (run_claimed, q, p) at e))
    ]
  ]

  -- Whatever the provider answers and the other sessions do, if they leave the row that a completion has
  -- written until it commits: a run that reports "succeeded" had the row claimed, and afterwards the row
  -- of the key is succeeded and holds a vector of the column's width; and the public source that was
  -- read under row locks in the last transaction matches the claimed row.
  pub process-Stored :
      (id : ℕ) (rows rows' : EmbeddingRows)
      → Keeps id (w.others 3)
      → process w id rows ≡ (rows', some Answer.succeeded)
      → (row : EmbeddingRow) × ((claim id w.owner w.lease_seconds w.now rows).1 ≡ some row)
        × Stored id row rows'
  unfolding process after_claim
  process-Stored id rows rows' keeps e = go (claim id w.owner w.lease_seconds w.now rows) e
    where
      go :
          (taken : EmbeddingRows × Option EmbeddingRow)
          → after_claim w id taken ≡ (rows', some Answer.succeeded)
          → (row : EmbeddingRow) × (taken.1 ≡ some row) × Stored id row rows'
      go (t, none) q = cc (ap (λ d. d.1) q)
      go (t, some row) q = (row, refl, claimed-Stored id row t rows' keeps q)
