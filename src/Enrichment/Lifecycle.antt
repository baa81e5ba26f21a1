-- ===== src/Enrichment/Lifecycle.antt =====
-- apps/backend/repositories/enrichment.py: what holds of the suggestions after any operations.
use elegance_shawls.Enrichment.Open.{OneOpen, append-OneOpen, replace-OneOpen}
use elegance_shawls.Base.{
  ◌==◌, All, Bool, Bool-cases, Distinct, String, [], arith, inl, inr, is_some, none, not, refl,
  some, sym, true, ℕ, ◌∙◌, ◌≡◌, ◌≤◌, ◌&&◌, All-append, All-update_where, Distinct-append,
  Distinct-update_where, Option-cases, and_true, false, find-append_some, find-update_where, ltb,
  true-ne-false, update_where, update_where_absent, update_where_hit, update_where_miss,
}
use elegance_shawls.Enrichment.Suggestions.{
  Suggestion, Suggestions, Asked, Ending, find_suggestion, is_open, is_queued, is_running,
  max_attempts, create, claim, begin_retry, finish, cancel, find_open, SuggestionStatus, begun,
  ended, find_same_key, new_suggestion, retried, withdrawn,
}

-- One call of an operation, with the values that the database and the clock supply.
pub data Op : Type 0 where
  create_one : (id now : ℕ) → Asked → Op
  claim_one : (id now : ℕ) → Op
  retry_one : (id : ℕ) → String → (now : ℕ) → Op
  finish_one : (id : ℕ) → Ending → (now : ℕ) → Op
  cancel_one : (staged_id id now : ℕ) → Op

unfoldable pub apply : Op → Suggestions → Suggestions
unfolding create claim begin_retry finish cancel
apply (create_one id now a) rows = (create id now a rows).0
apply (claim_one id now) rows = (claim id now rows).0
apply (retry_one id error now) rows = (begin_retry id error now rows).0
apply (finish_one id e now) rows = (finish id e now rows).0
apply (cancel_one staged_id id now) rows = (cancel staged_id id now rows).0

-- The primary key that the database draws for a new row is new.
abbrev pub IsFresh : Op → Suggestions → Type 0
IsFresh (create_one id now a) rows = find_suggestion id rows ≡ none
IsFresh _ rows = Unit {0}

pub data Reach : Suggestions → Type 0 where
  start : Reach []
  next : {rows : Suggestions} (op : Op) → Reach rows → IsFresh op rows → Reach (apply op rows)

pub record RowIsValid (r : Suggestion) : Type 0 where
  pub bounded : r.attempts ≤ max_attempts
  pub waiting : is_queued r.status ≡ true → r.attempts ≡ 0
  pub counted : is_running r.status ≡ true → 1 ≤ r.attempts
  pub timed : is_open r.status ≡ not (is_some r.finished_at)

pub record IsSound (rows : Suggestions) : Type 0 where
  pub distinct : Distinct (λ r. r.id) rows
  pub each : All RowIsValid rows
  pub one_open : OneOpen rows

-- An update whose test wants an open row, and whose rewriting keeps key, staged product and validity.
updated-IsSound :
    (i : ℕ) (test : Suggestion → Bool) (f : Suggestion → Suggestion) (rows : Suggestions)
    → ((r : Suggestion) → (f r).id ≡ r.id)
    → ((r : Suggestion) → (f r).staged_product_id ≡ r.staged_product_id)
    → ((r : Suggestion) → test r ≡ true → is_open r.status ≡ true)
    → ((r : Suggestion) → RowIsValid r → test r ≡ true → RowIsValid (f r))
    → IsSound rows
    → IsSound (update_where (λ r. r.id) i test f rows).0
updated-IsSound i test f rows same staged wants keep v = record {
  distinct = Distinct-update_where (λ r. r.id) i test f rows same v.distinct;
  each = All-update_where (λ r. r.id) RowIsValid i test f rows keep v.each;
  one_open = elim (Option-cases (find_suggestion i rows)) [
    | inl e ↦ rw (update_where_absent (λ r. r.id) i test f rows e) v.one_open
    | inr (r, e) ↦ elim (Bool-cases (test r)) [
      | inl p ↦
          rw (update_where_hit (λ r. r.id) i test f rows e p)
            (replace-OneOpen i r (f r) rows e (staged r) (wants r p) v.one_open)
      | inr p ↦ rw (update_where_miss (λ r. r.id) i test f rows e p) v.one_open
    ]
  ];
}

create-IsSound :
    (id now : ℕ) (a : Asked) (rows : Suggestions)
    → find_suggestion id rows ≡ none
    → IsSound rows
    → IsSound (create id now a rows).0
unfolding create
create-IsSound id now a rows fresh v = elim (Option-cases (find_same_key a rows)) [
  | inr (r, e) ↦ rw (e, create) v
  | inl e ↦ elim (Option-cases (find_open a.staged_id rows)) [
    | inr (r, o) ↦ rw (e, o, create) v
    | inl o ↦
        rw (e, o, create)
          (record {
            distinct = Distinct-append (λ r. r.id) (new_suggestion id now a) rows v.distinct fresh;
            each = All-append RowIsValid rows _ v.each (
              record {
                bounded = omega arith;
                waiting = λ q. refl;
                counted = λ q. absurd (true-ne-false (sym q));
                timed = refl;
              },
              tt,
            );
            one_open = append-OneOpen (new_suggestion id now a) rows o refl v.one_open;
          })
  ]
]

queued_open : (s : SuggestionStatus) → is_queued s ≡ true → is_open s ≡ true
queued_open s h = ground arith

begun-RowIsValid :
    (now : ℕ) (r : Suggestion) → RowIsValid r → is_queued r.status ≡ true → RowIsValid (begun now r)
begun-RowIsValid now r v h = record {
  bounded = omega arith;
  waiting = λ q. absurd (true-ne-false (sym q));
  counted = λ q. omega arith;
  timed = sym (queued_open r.status h) ∙ v.timed;
}

retried-RowIsValid :
    (error : String) (now : ℕ) (r : Suggestion)
    → RowIsValid r
    → (is_running r.status && ltb r.attempts max_attempts) ≡ true
    → RowIsValid (retried error now r)
retried-RowIsValid error now r v h = record {
  bounded = ground arith;
  waiting = λ q. absurd (ground arith);
  counted = λ q. omega arith;
  timed = v.timed;
}

ended-RowIsValid :
    (e : Ending) (now : ℕ) (r : Suggestion) → RowIsValid r → RowIsValid (ended e now r)
ended-RowIsValid e now r v = record {
  bounded = v.bounded;
  waiting = λ q. absurd (ground arith);
  counted = λ q. absurd (ground arith);
  timed = ground arith;
}

apply-IsSound :
    (op : Op) (rows : Suggestions) → IsFresh op rows → IsSound rows → IsSound (apply op rows)
unfolding apply claim begin_retry finish cancel
apply-IsSound (create_one id now a) rows fresh v = create-IsSound id now a rows fresh v
apply-IsSound (claim_one id now) rows fresh v =
    updated-IsSound id _ (begun now) rows (λ r. refl) (λ r. refl) (λ r h. queued_open r.status h)
      (begun-RowIsValid now) v
apply-IsSound (retry_one id error now) rows fresh v =
    updated-IsSound id _ (retried error now) rows (λ r. refl) (λ r. refl) (λ r h. ground arith)
      (retried-RowIsValid error now) v
apply-IsSound (finish_one id e now) rows fresh v =
    updated-IsSound id _ (ended e now) rows (λ r. refl) (λ r. refl) (λ r h. h)
      (λ r w h. ended-RowIsValid e now r w) v
apply-IsSound (cancel_one staged_id id now) rows fresh v =
    updated-IsSound id _ (withdrawn now) rows (λ r. refl) (λ r. refl)
      (λ r h. (and_true (r.staged_product_id == staged_id) (is_open r.status) h).1)
      (λ r w h. record {
        bounded = w.bounded;
        waiting = λ q. absurd (true-ne-false (sym q));
        counted = λ q. absurd (true-ne-false (sym q));
        timed = refl;
      })
      v

-- After any sequence of the operations on suggestions, from an empty table and with new primary keys
-- for new rows: the primary keys are distinct; a staged product has at most one queued or running
-- suggestion; no suggestion has more than two attempts, a queued one has none and a running one at
-- least one; and exactly the queued and running ones have no end time.
pub Reach-IsSound : {rows : Suggestions} → Reach rows → IsSound rows
Reach-IsSound start = record { distinct = tt; each = tt; one_open = tt }
Reach-IsSound (next {rows = rows} op r fresh) = apply-IsSound op rows fresh (Reach-IsSound r)

-- A row that is not open is left alone by an update that wants an open one.
kept :
    (k i : ℕ) (test : Suggestion → Bool) (f : Suggestion → Suggestion) (rows : Suggestions)
    {r : Suggestion}
    → ((s : Suggestion) → (f s).id ≡ s.id)
    → (test r ≡ true → is_open r.status ≡ true)
    → find_suggestion i rows ≡ some r
    → is_open r.status ≡ false
    → find_suggestion i (update_where (λ s. s.id) k test f rows).0 ≡ some r
kept k i test f rows {r = r} same wants e closed =
    let read = find-update_where (λ s. s.id) k i test f rows same e in
    elim (Bool-cases (test r)) [
      | inl p ↦ absurd (true-ne-false (sym (wants p) ∙ closed))
      | inr p ↦ elim (Bool-cases (k == i)) [ inl q ↦ rw (p, q) at read | inr q ↦ rw q at read ]
    ]

-- A suggestion that has succeeded, failed or been cancelled is changed by no operation, whoever runs
-- it: a worker that is still running overwrites no cancellation, and nothing is claimed again.
pub apply-closed :
    (op : Op) (rows : Suggestions) (i : ℕ) {r : Suggestion}
    → find_suggestion i rows ≡ some r
    → is_open r.status ≡ false
    → find_suggestion i (apply op rows) ≡ some r
unfolding apply create claim begin_retry finish cancel
apply-closed (create_one id now a) rows i e closed = elim (Option-cases (find_same_key a rows)) [
  | inr (k, p) ↦ rw (p, apply, create) e
  | inl p ↦ elim (Option-cases (find_open a.staged_id rows)) [
    | inr (k, o) ↦ rw (p, o, apply, create) e
    | inl o ↦ rw (p, o, apply, create) (find-append_some (λ s. s.id) i rows _ e)
  ]
]
apply-closed (claim_one id now) rows i {r = r} e closed =
    kept id i _ (begun now) rows (λ s. refl) (λ h. queued_open r.status h) e closed
apply-closed (retry_one id error now) rows i {r = r} e closed =
    kept id i _ (retried error now) rows (λ s. refl) (λ h. ground arith) e closed
apply-closed (finish_one id k now) rows i e closed =
    kept id i _ (ended k now) rows (λ s. refl) (λ h. h) e closed
apply-closed (cancel_one staged_id id now) rows i {r = r} e closed =
    kept id i _ (withdrawn now) rows (λ s. refl)
      (λ h. (and_true (r.staged_product_id == staged_id) (is_open r.status) h).1) e closed
