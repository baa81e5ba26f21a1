-- ===== src/Enrichment/Settled.antt =====
-- apps/backend/enrichment/service.py: `process` leaves the suggestion in a final state, whatever the
-- provider and the other sessions do.
use mathlib.Core.Path.{subst}
use elegance_shawls.Staged.Rows.{StagedProduct, StagedProductDraft}
use elegance_shawls.Enrichment.Attempts.{sum_cases, generate_total}
use elegance_shawls.Enrichment.Generate.{
  Parsed, ProviderFailure, Reply, attempt_call, attempts_from, described, is_transient, generate,
}
use elegance_shawls.Base.{
  ◌&&◌, ==_refl, Bool, Bool-cases, Option, Option-cases, String, false, find-key, find-replace,
  find-update_where, inl, inr, is_some, ltb, refl, some, suc, sym, true, true-ne-false,
  update_where, update_where_hit, update_where_miss, zero, ℕ, ◌∙◌, ◌≡◌, ◌⊎◌, ap, none, not, str_eq,
  List, replace, update_where_absent, some_inj,
}
use elegance_shawls.Enrichment.Suggestions.{
  finish, Ending, Suggestion, Suggestions, SuggestionStatus, ended, is_open, max_attempts,
  find_suggestion, status_of, Final, begin_retry, retried, is_running, claim, begun, is_queued,
}
use elegance_shawls.Enrichment.Process.{
  settle, Answer, not_reviewable, on_retry, run_claimed, process, input_changed,
  no_longer_reviewable, after_claim,
}

-- What every retry keeps, `generate` keeps.
generate_keeps :
    {S Money : Type 0} (affordable : Money → Bool) (record_spent : ℕ → Money → Money)
    (provider : ℕ → ProviderFailure ⊎ Reply) (parse : String → Parsed)
    (retry : ℕ → String → S → S × Bool) (P : S → Type 0)
    → ((attempt : ℕ) (error : String) (s : S) → P s → P (retry attempt error s).0)
    → (rounds first : ℕ) (error : Option String) (s : S) (money : Money) → P s
    → P (attempts_from affordable record_spent provider parse retry rounds first error s money).0.0
unfolding attempts_from
generate_keeps affordable record_spent provider parse retry P keep zero first error s money h = h
generate_keeps affordable record_spent provider parse retry P keep (suc rounds) first error s money
      h =
    elim (sum_cases (attempt_call affordable record_spent provider parse retry first money)) [
      | inr (reply, e) ↦ rw (e, attempts_from) h
      | inl (failure, e) ↦ elim (Bool-cases (ltb first max_attempts && is_transient failure)) [
        | inr stop ↦ rw (e, attempts_from) (rw stop h)
        | inl go ↦
            let called = retry (suc first) (described failure) s in
            let h' : P called.0 = keep (suc first) (described failure) s h in
            elim (Bool-cases called.1) [
              | inr no_more ↦ rw (e, attempts_from) (rw go (rw no_more h'))
              | inl more ↦
                  rw (e, attempts_from)
                    (rw go (
                      rw more (
                        generate_keeps affordable record_spent provider parse retry P keep rounds
                          (suc first) (some (described failure)) called.0 money h')))
            ]
      ]
    ]

abbrev IsThere : ℕ → Suggestions → Type 0
IsThere i rows = is_some (find_suggestion i rows) ≡ true

there_row :
    (i : ℕ) (rows : Suggestions)
    → IsThere i rows
    → (r : Suggestion) × (find_suggestion i rows ≡ some r)
there_row i rows h = elim (Option-cases (find_suggestion i rows)) [
  | inl e ↦ absurd (true-ne-false (sym h ∙ ap (λ (o : Option Suggestion). is_some o) e))
  | inr r ↦ r
]

updated-IsThere :
    (k i : ℕ) (test : Suggestion → Bool) (f : Suggestion → Suggestion) (rows : Suggestions)
    → ((s : Suggestion) → (f s).id ≡ s.id)
    → IsThere i rows
    → IsThere i (update_where (λ s. s.id) k test f rows).0
updated-IsThere k i test f rows same h =
    let (r, e) = there_row i rows h in
    rw (find-update_where (λ s. s.id) k i test f rows same e) refl

abbrev pub IsOpen : ℕ → Suggestions → Type 0
IsOpen i rows = (r : Suggestion) × (find_suggestion i rows ≡ some r) × (is_open r.status ≡ true)

-- The commits of the other sessions of some number ended the suggestion.
abbrev pub Overtaken : (ℕ → Suggestions → Suggestions) → ℕ → Type 0
Overtaken others i =
    (n : ℕ) × (rows : Suggestions) × (r : Suggestion) × IsOpen i rows
    × (find_suggestion i (others n rows) ≡ some r)
    × (is_open r.status ≡ false)

-- The suggestion `i` has ended, and the answer is its status, or says that it was cancelled where
-- another session had ended it.
pub record HasEnded (others : ℕ → Suggestions → Suggestions) (i : ℕ) (rows : Suggestions)
    (answer : Answer) : Type 0 where
  pub row : Suggestion
  pub found : find_suggestion i rows ≡ some row
  pub closed : is_open row.status ≡ false
  pub told :
      (answer ≡ Answer.settled row.status)
      ⊎ ((answer ≡ Answer.settled SuggestionStatus.cancelled) × Overtaken others i)

final_closed : (f : Final) → is_open (status_of f) ≡ false
final_closed Final.succeeded = refl
final_closed Final.failed = refl
final_closed Final.cancelled = refl

settle-HasEnded :
    (others : ℕ → Suggestions → Suggestions) (id : ℕ) (e : Ending) (now : ℕ) (rows : Suggestions)
    → IsThere id rows
    → IsOpen id rows ⊎ Overtaken others id
    → HasEnded others id (settle id e now rows).0 (settle id e now rows).1
unfolding settle finish
settle-HasEnded others id e now rows h why =
    let (r, found) = there_row id rows h in
    elim (Bool-cases (is_open r.status)) [
      | inl open_row ↦
          let hit =
            update_where_hit (λ s. s.id) id (λ s. is_open s.status) (ended e now) rows found
              open_row in
          let key = find-key (λ s. s.id) id rows found in
          let read = find-replace (λ s. s.id) id id (ended e now r) rows key in
          rw (settle, finish, hit)
            (record {
              row = ended e now r;
              found = rw (==_refl id, found) at read;
              closed = final_closed e.final;
              told = inl refl;
            })
      | inr closed_row ↦
          let miss =
            update_where_miss (λ s. s.id) id (λ s. is_open s.status) (ended e now) rows found
              closed_row in
          let lost : Overtaken others id = elim why [
            | inr o ↦ o
            | inl (p, found_p, open_p) ↦
                let same : p ≡ r = some_inj (sym found_p ∙ found) in
                absurd (
                  true-ne-false
                    (sym open_p ∙ ap (λ (k : Suggestion). is_open k.status) same ∙ closed_row))
          ] in
          rw (settle, finish, miss)
            (record { row = r; found = found; closed = closed_row; told = inr (refl, lost) })
    ]

module _ {Money : Type 0} (prepare_hash : StagedProductDraft → String)
    (others : ℕ → Suggestions → Suggestions) (affordable : Money → Bool)
    (record_spent : ℕ → Money → Money) (provider : Suggestion → ℕ → ProviderFailure ⊎ Reply)
    (parse : String → Parsed) (now id : ℕ)
    (stays : (n : ℕ) (rows : Suggestions) → IsThere id rows → IsThere id (others n rows)) where
  -- The suggestion is in the table, and open unless another session ended it.
  abbrev Live : Suggestions → Type 0
  Live rows = IsThere id rows × (IsOpen id rows ⊎ Overtaken others id)

  others-Live : (n : ℕ) (rows : Suggestions) → Live rows → Live (others n rows)
  others-Live n rows (there, inr o) = (stays n rows there, inr o)
  others-Live n rows (there, inl open_row) =
      let later = stays n rows there in
      let (r, found) = there_row id (others n rows) later in
      elim (Bool-cases (is_open r.status)) [
        | inl p ↦ (later, inl (r, found, p))
        | inr p ↦ (later, inr (n, rows, r, open_row, found, p))
      ]

  -- An attempt that is counted leaves the row as open as it was.
  retried-Live :
      (error : String) (rows : Suggestions)
      → Live rows
      → Live
          (update_where
            (λ s. s.id)
            id
            (λ s. is_running s.status && ltb s.attempts max_attempts)
            (retried error now)
            rows).0
  retried-Live error rows (there, inr o) =
      (updated-IsThere id id _ (retried error now) rows (λ s. refl) there, inr o)
  retried-Live error rows (there, inl (r, found, open_row)) =
      let test : Suggestion → Bool = λ s. is_running s.status && ltb s.attempts max_attempts in
      let read =
        find-update_where (λ s. s.id) id id test (retried error now) rows (λ s. refl) found in
      (
        updated-IsThere id id test (retried error now) rows (λ s. refl) there,
        inl (elim (Bool-cases (test r)) [
          | inl p ↦ (retried error now r, rw (==_refl id, p) at read, open_row)
          | inr p ↦ (r, rw (==_refl id, p) at read, open_row)
        ]),
      )

  -- The outcome of a run that was not skipped.
  abbrev pub Ran : ((Suggestions × Money) × Option Answer) → Type 0
  Ran outcome =
      (rows : Suggestions) × (money : Money) × (answer : Answer) × (outcome
        ≡ ((rows, money), some answer))
      × HasEnded others id rows answer

  settled-Ran :
      (e : Ending) (rows : Suggestions) (money : Money)
      → Live rows
      → Ran
          ((((settle id e now (others 2 rows)).0), money), some (settle id e now (others 2 rows)).1)
  settled-Ran e rows money h =
      let later = others-Live 2 rows h in
      (_, money, _, refl, settle-HasEnded others id e now (others 2 rows) later.0 later.1)

  on_retry-Live :
      (attempt : ℕ) (error : String) (rows : Suggestions)
      → Live rows
      → Live
          (on_retry prepare_hash others affordable record_spent provider parse now id attempt error
            rows).0
  unfolding on_retry begin_retry
  on_retry-Live attempt error rows h = retried-Live error (others 1 rows) (others-Live 1 rows h)

  generate-Live :
      (row : Suggestion) (rows : Suggestions) (money : Money)
      → Live rows
      → Live
          (generate affordable record_spent
            (provider row)
            parse
            (on_retry prepare_hash others affordable record_spent provider parse now id)
            rows
            money).0.0
  unfolding generate
  generate-Live row rows money h =
      generate_keeps affordable record_spent (provider row) parse
        (on_retry prepare_hash others affordable record_spent provider parse now id) Live
        on_retry-Live max_attempts 1 none rows money h

  run_claimed-Ran :
      (row : Suggestion) (staged : Option StagedProduct) (rows : Suggestions) (money : Money)
      → Live rows
      → Ran (
          run_claimed prepare_hash others affordable record_spent provider parse now id row staged
            rows money)
  unfolding run_claimed
  run_claimed-Ran row none rows money h = settled-Ran no_longer_reviewable rows money h
  run_claimed-Ran row (some staged) rows money h =
      elim (Bool-cases (not_reviewable staged.status)) [
        | inl p ↦ rw (p, run_claimed) (settled-Ran no_longer_reviewable rows money h)
        | inr p ↦
            elim (Bool-cases (not (str_eq (prepare_hash staged.product) row.input_content_hash))) [
              | inl q ↦ rw (p, q, run_claimed) (settled-Ran input_changed rows money h)
              | inr q ↦
                  let retry =
                    on_retry prepare_hash others affordable record_spent provider parse now id in
                  let (st, g, same, outcome) =
                    generate_total affordable record_spent (provider row) parse retry rows money in
                  let made =
                    generate affordable record_spent (provider row) parse retry rows money in
                  rw (p, q, run_claimed)
                    (rw same
                      (settled-Ran g.ending made.0.0 made.0.1 (generate-Live row rows money h)))
            ]
      ]

  abbrev pub is_waiting : Suggestions → Bool
  is_waiting rows = elim (find_suggestion id rows) [ none ↦ false | some r ↦ is_queued r.status ]

  -- What a call comes to, by whether the suggestion waits.
  abbrev pub Run : List StagedProduct → Suggestions → Money → Type 0
  Run staged rows money =
      ((is_waiting rows ≡ true)
        × Ran (
            process prepare_hash others affordable record_spent provider parse now id staged rows
              money))
      ⊎ ((is_waiting rows ≡ false)
          × (process prepare_hash others affordable record_spent provider parse now id staged rows
                money
              ≡ ((rows, money), some Answer.skipped)))

  -- If no other session removes the suggestion, then a call of `process` returns: where the suggestion
  -- is not queued, it is skipped and changes nothing; where it is queued, the call leaves it succeeded,
  -- failed or cancelled, and answers with that status, or with `cancelled` where it was open before
  -- some commit of another session and that commit had ended it.
  pub process-Ran :
      (staged : List StagedProduct) (rows : Suggestions) (money : Money) → Run staged rows money
  unfolding process after_claim claim
  process-Ran staged rows money =
      let next =
        after_claim prepare_hash others affordable record_spent provider parse now id staged
          money in
      elim (Option-cases (find_suggestion id rows)) [
        | inl e ↦ inr (
          rw (e, is_waiting) refl,
          ap next (update_where_absent (λ r. r.id) id (λ r. is_queued r.status) (begun now) rows e),
        )
        | inr (r, e) ↦ elim (Bool-cases (is_queued r.status)) [
          | inr not_queued ↦ inr (
            rw (e, not_queued, is_waiting) refl,
            ap next (
                update_where_miss (λ r. r.id) id (λ r. is_queued r.status) (begun now) rows e
                  not_queued),
          )
          | inl waiting ↦
              let hit =
                update_where_hit (λ r. r.id) id (λ r. is_queued r.status) (begun now) rows e
                  waiting in
              let read =
                updated-IsThere id id (λ r. is_queued r.status) (begun now) rows (λ s. refl)
                  (rw e refl) in
              let there : IsThere id (replace (λ r. r.id) id (begun now r) rows) =
                subst (λ (o : Suggestions × Option Suggestion). IsThere id o.0) hit read in
              let begun_row : IsOpen id (replace (λ r. r.id) id (begun now r) rows) = (
                begun now r,
                rw (==_refl id, e) at
                    (find-replace (λ s. s.id) id id (begun now r) rows
                      (find-key (λ s. s.id) id rows e)),
                refl,
              ) in
              inl (
                rw (e, waiting, is_waiting) refl,
                subst (λ c. Ran (next c)) (sym hit)
                    (run_claimed-Ran (begun now r) _ _ money (there, inl begun_row)),
              )
        ]
      ]
