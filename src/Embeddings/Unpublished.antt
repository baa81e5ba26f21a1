-- ===== src/Embeddings/Unpublished.antt =====
-- `process` of apps/backend/search/embedding_service.py: which runs publish no vector.
use elegance_shawls.Embeddings.Process.{
  Worker, after_claim, embedded_text, process, provider_failed, publish, run_claimed, run_source,
  settle, backoff,
}
use elegance_shawls.Embeddings.Sources.{Source, is_match}
use elegance_shawls.Embeddings.Rows.{
  EmbeddingRow, EmbeddingRows, Ending, claim, exhausted, find_row, finish, given_up, holds_lease,
  is_claimable, is_succeeded, leased, released, status_of,
}
use elegance_shawls.Embeddings.Provider.{EmbeddingError}
use elegance_shawls.Base.{
  ◌&&◌, Bool, Bool-cases, List, Option, String, false, find-update_where_cases, inl, inr, ltb, none,
  refl, result-cases, some, sym, true, true-ne-false, update_where, ℕ, ◌∙◌, ◌≡◌, ap, ◌<>◌,
}

-- A step that makes no row succeeded.
abbrev pub Tame : EmbeddingRows → EmbeddingRows → Type 0
Tame t u =
    (i : ℕ) (r : EmbeddingRow)
    → find_row i u ≡ some r
    → is_succeeded r.status ≡ true
    → find_row i t ≡ some r

Tame-trans : (t u v : EmbeddingRows) → Tame t u → Tame u v → Tame t v
Tame-trans t u v first second i r e live = first i r (second i r e live) live

Tame-update_where :
    (id : ℕ) (test : EmbeddingRow → Bool) (f : EmbeddingRow → EmbeddingRow) (t : EmbeddingRows)
    → ((r : EmbeddingRow) → (f r).id ≡ r.id)
    → ((r : EmbeddingRow) → is_succeeded (f r).status ≡ false)
    → Tame t (update_where (λ r. r.id) id test f t).0
Tame-update_where id test f t same dead i r e live =
    elim (find-update_where_cases (λ (r : EmbeddingRow). r.id) id i test f t same e) [
      | inl old ↦ old
      | inr (p, found, passed, made, at) ↦
          absurd (true-ne-false (sym live ∙ ap (λ x. is_succeeded x.status) (sym made) ∙ dead p))
    ]

Tame-claim :
    (id : ℕ) (owner : String) (lease_seconds now : ℕ) (rows : EmbeddingRows)
    → Tame rows (claim id owner lease_seconds now rows).0
unfolding claim
Tame-claim id owner lease_seconds now rows i r e live =
    let cleared = (update_where (λ r. r.id) id (exhausted now) (given_up now) rows).0 in
    Tame-update_where id (exhausted now) (given_up now) rows (λ r. refl) (λ r. refl) i r
      (Tame-update_where id (is_claimable now) (leased owner lease_seconds now) cleared (λ r. refl)
        (λ r. refl) i r e live)
      live

ending_dead : (e : Ending) → is_succeeded (status_of e) ≡ false
ending_dead Ending.failed = refl
ending_dead Ending.stale = refl
ending_dead (Ending.retry d) = refl

Tame-finish :
    (id : ℕ) (owner : String) (e : Ending) (error : Option String) (retryable : Option Bool)
    (now : ℕ) (rows : EmbeddingRows)
    → Tame rows (finish id owner e error retryable now rows).0
unfolding finish
Tame-finish id owner e error retryable now rows =
    Tame-update_where id (holds_lease owner) (released e error retryable now) rows (λ r. refl)
      (λ r. ending_dead e)

module _ (w : Worker) (quiet : (n : ℕ) (rows : EmbeddingRows) → Tame rows (w.others n rows)) where
  settle-Tame :
      (id : ℕ) (e : Ending) (error : String) (retryable : Option Bool) (rows : EmbeddingRows)
      → Tame rows (settle w id e error retryable rows)
  unfolding settle
  settle-Tame id e error retryable rows =
      Tame-trans rows (w.others 1 rows) _ (quiet 1 rows)
        (Tame-finish id w.owner e (some error) retryable w.now (w.others 1 rows))

  provider_failed-Tame :
      (id : ℕ) (row : EmbeddingRow) (error : EmbeddingError) (rows : EmbeddingRows)
      → Tame rows (provider_failed w id row error rows).0
  unfolding provider_failed
  provider_failed-Tame id row error rows =
      elim (Bool-cases (error.retryable && ltb row.attempts row.max_attempts)) [
        | inl q ↦
            rw (provider_failed, q)
              (settle-Tame id (Ending.retry (backoff w row)) error.message (some error.retryable)
                rows)
        | inr q ↦
            rw (provider_failed, q)
              (settle-Tame id Ending.failed error.message (some error.retryable) rows)
      ]

  -- The last read raises, or finds a source that the row is not for.
  abbrev pub HasMovedOn : EmbeddingRow → Type 0
  HasMovedOn row =
      (current : Option Source) → w.load 2 row.owner_id ≡ inr current → is_match current row ≡ false

  publish-Tame :
      (id : ℕ) (row : EmbeddingRow) (vector : List String) (rows : EmbeddingRows)
      → HasMovedOn row
      → Tame rows (publish w id row vector rows).0
  unfolding publish
  publish-Tame id row vector rows moved = elim (result-cases (w.load 2 row.owner_id)) [
    | inl (error, q) ↦ rw (publish, q) (λ i r e live. e)
    | inr (current, q) ↦
        rw (publish, q, moved current q)
          (Tame-finish id w.owner Ending.stale (some "source changed during embedding") none w.now
            rows)
  ]

  run_source-Tame :
      (id : ℕ) (row : EmbeddingRow) (text : String) (rows : EmbeddingRows)
      → HasMovedOn row
      → Tame rows (run_source w id row text rows).0
  unfolding run_source
  run_source-Tame id row text rows moved = elim (result-cases (embedded_text w row text)) [
    | inl (error, q) ↦ rw (run_source, q) (provider_failed-Tame id row error rows)
    | inr (vector, q) ↦
        rw (run_source, q)
          (Tame-trans rows (w.others 2 rows) _ (quiet 2 rows)
            (publish-Tame id row vector (w.others 2 rows) moved))
  ]

  run_claimed-Tame :
      (id : ℕ) (row : EmbeddingRow) (rows : EmbeddingRows)
      → HasMovedOn row
      → Tame rows (run_claimed w id row rows).0
  unfolding run_claimed
  run_claimed-Tame id row rows moved = elim (result-cases (w.load 1 row.owner_id)) [
    | inl (error, q) ↦
        rw (run_claimed, q)
          (settle-Tame id Ending.failed ("representation: " <> w.unrepresentable error) (some false)
            rows)
    | inr (none, q) ↦
        rw (run_claimed, q)
          (settle-Tame id Ending.stale "source changed or no longer public" none rows)
    | inr (some source, q) ↦ elim (Bool-cases (is_match (some source) row)) [
      | inl p ↦
          rw (run_claimed, q, p) (run_source-Tame id row source.representation.text rows moved)
      | inr p ↦
          rw (run_claimed, q, p)
            (settle-Tame id Ending.stale "source changed or no longer public" none rows)
    ]
  ]

  -- If the other sessions publish no vector, and for the row that the run claims the read under row
  -- locks in the last transaction raises or finds a source that does not match it, then the run publishes
  -- none, whatever it answers: every row that is succeeded afterwards was in the table before, the same.
  pub process-unpublished :
      (id : ℕ) (rows : EmbeddingRows)
      → ((row : EmbeddingRow)
          → (claim id w.owner w.lease_seconds w.now rows).1 ≡ some row
          → HasMovedOn row)
      → Tame rows (process w id rows).0
  unfolding process after_claim
  process-unpublished id rows moved =
      go (claim id w.owner w.lease_seconds w.now rows)
        (Tame-claim id w.owner w.lease_seconds w.now rows) moved
    where
      go :
          (taken : EmbeddingRows × Option EmbeddingRow)
          → Tame rows taken.0
          → ((row : EmbeddingRow) → taken.1 ≡ some row → HasMovedOn row)
          → Tame rows (after_claim w id taken).0
      go (t, none) first m = first
      go (t, some row) first m = Tame-trans rows t _ first (run_claimed-Tame id row t (m row refl))
