-- ===== src/Enrichment/Attempts.antt =====
-- apps/backend/enrichment/service.py: `generate` ends after two attempts at most.
use elegance_shawls.Enrichment.Generate.{
  Generated, Parsed, ProviderFailure, Reply, attempt_call, is_transient, judged, attempts_from,
  described, generate, stopped,
}
use elegance_shawls.Enrichment.Suggestions.{Final, max_attempts}
use elegance_shawls.Base.{
  ◌+◌, Bool, Bool-cases, String, [], arith, inl, inr, suc, true, zero, ℕ, ◌≡◌, ◌≤◌, ◌⊎◌, ◌&&◌, ◌<◌,
  List, Option, and_true, ltb, none, refl, some, ◌∷◌, false, ltb→lt, ◌≢◌,
}

pub sum_cases :
    (o : ProviderFailure ⊎ Reply)
    → ((f : ProviderFailure) × (o ≡ inl f)) ⊎ ((r : Reply) × (o ≡ inr r))
sum_cases (inl f) = inl (f, refl)
sum_cases (inr r) = inr (r, refl)

module _ {S Money : Type 0} (affordable : Money → Bool) (record_spent : ℕ → Money → Money)
    (provider : ℕ → ProviderFailure ⊎ Reply) (parse : String → Parsed)
    (retry : ℕ → String → S → S × Bool) where
  -- So many attempts from `first` on failed, each transiently.
  abbrev pub AllTransient : ℕ → ℕ → Type 0
  AllTransient first zero = Unit {0}
  AllTransient first (suc more) =
      ((failure : ProviderFailure) × (provider first ≡ inl failure) × (is_transient failure ≡ true))
      × AllTransient (suc first) more

  -- Why the attempt of a number failed for good: a reply that was not valid, a budget that was spent, or
  -- a failure that is not transient or is the last attempt's.
  abbrev pub Refused : Money → Generated → Type 0
  Refused money g =
      ((reply : Reply) × (provider g.attempts ≡ inr reply)
        × ((parse reply.text).errors ≡ g.ending.validation_errors)
        × (g.ending.validation_errors ≢ []))
      ⊎ ((affordable money ≡ false)
          ⊎ ((failure : ProviderFailure) × (provider g.attempts ≡ inl failure)
              × ((is_transient failure ≡ false) ⊎ (g.attempts ≡ max_attempts))))

  -- Why it was cancelled: after a transient failure before the last attempt, `on_retry` said no.
  abbrev pub Withdrawn : Generated → Type 0
  Withdrawn g =
      (failure : ProviderFailure) × (provider g.attempts ≡ inl failure)
      × (is_transient failure ≡ true)
      × (g.attempts < max_attempts)
      × (s : S) × ((retry (suc g.attempts) (described failure) s).1 ≡ false)

  -- What a result of the attempts from `first` on rests on: how many failed before its last one, and
  -- what its last attempt came to.
  pub record IsOutcome (money : Money) (first : ℕ) (g : Generated) : Type 0 where
    pub failures : ℕ
    pub last : g.attempts ≡ first + failures
    pub bounded : g.attempts ≤ max_attempts
    pub transient : AllTransient first failures
    pub accepted :
        g.ending.final ≡ Final.succeeded
        → (reply : Reply) × (provider g.attempts ≡ inr reply)
          × ((parse reply.text).errors ≡ [])
          × ((parse reply.text).suggestions ≡ g.ending.suggestions)
    pub refused : g.ending.final ≡ Final.failed → Refused money g
    pub withdrawn : g.ending.final ≡ Final.cancelled → Withdrawn g

  attempt_call-failure :
      (attempt : ℕ) (money : Money) (failure : ProviderFailure)
      → attempt_call affordable record_spent provider parse retry attempt money ≡ inl failure
      → is_transient failure ≡ true
      → provider attempt ≡ inl failure
  unfolding attempt_call is_transient
  attempt_call-failure attempt money failure e t = elim (Bool-cases (affordable money)) [
    | inl p ↦ rw p at e
    | inr p ↦ let e' = rw p at e in absurd (ground arith)
  ]

  attempt_call-reply :
      (attempt : ℕ) (money : Money) (reply : Reply)
      → attempt_call affordable record_spent provider parse retry attempt money ≡ inr reply
      → provider attempt ≡ inr reply
  unfolding attempt_call
  attempt_call-reply attempt money reply e = elim (Bool-cases (affordable money)) [
    | inl p ↦ rw p at e
    | inr p ↦ let e' = rw p at e in absurd (ground arith)
  ]

  attempt_call-refused :
      (attempt : ℕ) (money : Money) (failure : ProviderFailure)
      → attempt_call affordable record_spent provider parse retry attempt money ≡ inl failure
      → (affordable money ≡ false) ⊎ (provider attempt ≡ inl failure)
  unfolding attempt_call
  attempt_call-refused attempt money failure e = elim (Bool-cases (affordable money)) [
    | inl p ↦ inr (rw p at e)
    | inr p ↦ inl p
  ]

  -- A reply ends the attempts.
  judged-IsOutcome :
      (suggestions : Option String) (errors : List String) (first : ℕ) (money : Money)
      (reply : Reply)
      → first ≤ max_attempts
      → provider first ≡ inr reply
      → (parse reply.text).suggestions ≡ suggestions
      → (parse reply.text).errors ≡ errors
      → IsOutcome money first (judged suggestions errors first)
  unfolding judged
  judged-IsOutcome suggestions [] first money reply h e same valid = record {
    failures = 0;
    last = omega arith;
    bounded = h;
    transient = tt;
    accepted = λ k. (reply, e, valid, same);
    refused = λ k. absurd (ground arith);
    withdrawn = λ k. absurd (ground arith);
  }
  judged-IsOutcome suggestions (x ∷ xs) first money reply h e same valid = record {
    failures = 0;
    last = omega arith;
    bounded = h;
    transient = tt;
    accepted = λ k. absurd (ground arith);
    refused = λ k. inl (reply, e, valid, λ n. cc n);
    withdrawn = λ k. absurd (ground arith);
  }

  failed-IsOutcome :
      (first : ℕ) (error : Option String) (money : Money)
      → first ≤ max_attempts
      → Refused money (stopped Final.failed error first)
      → IsOutcome money first (stopped Final.failed error first)
  failed-IsOutcome first error money h why = record {
    failures = 0;
    last = omega arith;
    bounded = h;
    transient = tt;
    accepted = λ k. absurd (ground arith);
    refused = λ k. why;
    withdrawn = λ k. absurd (ground arith);
  }

  cancelled-IsOutcome :
      (first : ℕ) (error : Option String) (money : Money)
      → first ≤ max_attempts
      → Withdrawn (stopped Final.cancelled error first)
      → IsOutcome money first (stopped Final.cancelled error first)
  cancelled-IsOutcome first error money h why = record {
    failures = 0;
    last = omega arith;
    bounded = h;
    transient = tt;
    accepted = λ k. absurd (ground arith);
    refused = λ k. absurd (ground arith);
    withdrawn = λ k. why;
  }

  later-IsOutcome :
      (first : ℕ) (money : Money) (g : Generated) (failure : ProviderFailure)
      → provider first ≡ inl failure
      → is_transient failure ≡ true
      → IsOutcome money (suc first) g
      → IsOutcome money first g
  later-IsOutcome first money g failure e t o = record {
    failures = suc o.failures;
    last = omega (arith, o.last);
    bounded = o.bounded;
    transient = ((failure, e, t), o.transient);
    accepted = o.accepted;
    refused = o.refused;
    withdrawn = o.withdrawn;
  }

  -- A failure that is not tried again.
  stopping-Refused :
      (first : ℕ) (error : Option String) (money : Money) (failure : ProviderFailure)
      → first ≤ max_attempts
      → attempt_call affordable record_spent provider parse retry first money ≡ inl failure
      → ltb first max_attempts && is_transient failure ≡ false
      → Refused money (stopped Final.failed error first)
  stopping-Refused first error money failure h e stop =
      elim (attempt_call-refused first money failure e) [
        | inl spent ↦ inr (inl spent)
        | inr raised ↦ elim (Bool-cases (is_transient failure)) [
          | inr t ↦ inr (inr (failure, raised, inl t))
          | inl t ↦ inr (inr (failure, raised, inr (ground arith)))
        ]
      ]

  attempts_from-IsOutcome :
      (rounds first : ℕ) (error : Option String) (s : S) (money : Money)
      → first + rounds ≡ suc max_attempts
      → 0 < rounds
      → (st : S × Money) × (g : Generated) × (attempts_from affordable record_spent provider parse
            retry rounds first error s money
          ≡ (st, some g))
        × IsOutcome money first g
  unfolding attempts_from
  attempts_from-IsOutcome zero first error s money n h = absurd (omega arith)
  attempts_from-IsOutcome (suc rounds) first error s money n h =
      elim (sum_cases (attempt_call affordable record_spent provider parse retry first money)) [
        | inr (reply, e) ↦
            let parsed = parse reply.text in
            (
              (s, record_spent reply.cost_usd money),
              judged parsed.suggestions parsed.errors first,
              rw (e, attempts_from) refl,
              judged-IsOutcome parsed.suggestions parsed.errors first money reply (omega arith)
                  (attempt_call-reply first money reply e) refl refl,
            )
        | inl (failure, e) ↦ elim (Bool-cases (ltb first max_attempts && is_transient failure)) [
          | inr stop ↦ (
            (s, money),
            stopped Final.failed (some (described failure)) first,
            rw (e, attempts_from) (rw stop refl),
            failed-IsOutcome first (some (described failure)) money (omega arith) (
                stopping-Refused first (some (described failure)) money failure (omega arith) e
                  stop),
          )
          | inl go ↦
              let called = retry (suc first) (described failure) s in
              let parts = and_true (ltb first max_attempts) (is_transient failure) go in
              let raised = attempt_call-failure first money failure e parts.1 in
              elim (Bool-cases called.1) [
                | inr no_more ↦ (
                  (called.0, money),
                  stopped Final.cancelled (some (described failure)) first,
                  rw (e, attempts_from) (rw go (rw no_more refl)),
                  cancelled-IsOutcome first (some (described failure)) money (omega arith)
                      (failure, raised, parts.1, ltb→lt first max_attempts parts.0, s, no_more),
                )
                | inl more ↦
                    let (st, g, same, o) =
                      attempts_from-IsOutcome rounds (suc first) (some (described failure)) called.0
                        money (omega arith) (ground arith) in
                    (
                      st,
                      g,
                      rw (e, attempts_from) (rw go (rw more same)),
                      later-IsOutcome first money g failure raised parts.1 o,
                    )
              ]
        ]
      ]

-- `generate` always returns, whatever the provider, the budget and `on_retry` do, after one or two
-- attempts, of which all but the last failed in a way that is transient (a timeout, a connection or
-- transport error, HTTP 429, or HTTP 500 and above). Where it reports success, the last attempt's reply
-- was valid, and its suggestions are the ones reported; where it reports a failure, the last reply had
-- the reported errors, or the budget was spent, or the last call failed and the failure is not
-- transient or no attempt is left; and where it reports a cancellation, `on_retry` refused another
-- attempt after a transient failure.
pub generate_total :
    {S Money : Type 0} (affordable : Money → Bool) (record_spent : ℕ → Money → Money)
    (provider : ℕ → ProviderFailure ⊎ Reply) (parse : String → Parsed)
    (retry : ℕ → String → S → S × Bool) (s : S) (money : Money)
    → (st : S × Money) × (g : Generated) × (generate affordable record_spent provider parse retry s
          money
        ≡ (st, some g))
      × IsOutcome affordable record_spent provider parse retry money 1 g
unfolding generate
generate_total affordable record_spent provider parse retry s money =
    attempts_from-IsOutcome affordable record_spent provider parse retry max_attempts 1 none s money
      (omega arith) (omega arith)
