-- ===== src/Enrichment/Generate.antt =====
-- apps/backend/enrichment/service.py: `is_transient`, `describe` and `generate`. The provider's answer
-- to each attempt is an argument, as is what `on_retry` does, over a state of its caller.

use Prim.Native.Char.{code}
use elegance_shawls.Enrichment.Suggestions.{Ending, Final, max_attempts}
use elegance_shawls.Base.{
  ◌&&◌, ◌<>◌, ◌==◌, Bool, List, Option, String, [], if◌then◌else◌, false, inl, inr, leb, ltb, none,
  some, suc, true, zero, ◌||◌, ℕ, ◌∷◌, ◌⊎◌,
}

-- What a call of the provider may raise.
pub data ProviderFailure : Type 0 where
  timed_out connection_failed transport_failed : (type_name : String) → ProviderFailure
  budget_exceeded : ProviderFailure
  provider_error : (http_status : Option ℕ) → (text : String) → ProviderFailure
  other : (type_name : String) → ProviderFailure

unfoldable pub is_transient : ProviderFailure → Bool
is_transient (ProviderFailure.timed_out type_name) = true
is_transient (ProviderFailure.connection_failed type_name) = true
is_transient (ProviderFailure.transport_failed type_name) = true
is_transient (ProviderFailure.provider_error (some code) text) = code == 429 || leb 500 code
is_transient _ = false

-- `describe`, and the text for a spent budget.
abbrev pub described : ProviderFailure → String
described (ProviderFailure.timed_out type_name) = type_name
described (ProviderFailure.connection_failed type_name) = type_name
described (ProviderFailure.transport_failed type_name) = type_name
described ProviderFailure.budget_exceeded = "budget_exceeded"
described (ProviderFailure.provider_error code text) = "ProviderError: " <> text
described (ProviderFailure.other type_name) = type_name

-- The class Parsed of the contract.
pub record Parsed : Type 0 where
  pub suggestions : Option String
  pub errors : List String

pub record Reply : Type 0 where
  pub text : String
  pub cost_usd : ℕ

-- The class Result.
pub record Generated : Type 0 where
  pub ending : Ending
  pub attempts : ℕ

abbrev pub stopped : Final → Option String → ℕ → Generated
stopped final error attempts = record {
  ending = record { final = final; suggestions = none; validation_errors = []; last_error = error };
  attempts = attempts;
}

-- What a reply with these suggestions and errors ends in.
unfoldable pub judged : Option String → List String → ℕ → Generated
judged suggestions [] attempt = record {
  ending = record {
    final = Final.succeeded;
    suggestions = suggestions;
    validation_errors = [];
    last_error = none;
  };
  attempts = attempt;
}
judged suggestions (e ∷ es) attempt = record {
  ending = record {
    final = Final.failed;
    suggestions = none;
    validation_errors = e ∷ es;
    last_error = some "schema_invalid";
  };
  attempts = attempt;
}

-- `in_budget` is the test of `budget.check()`, and `record_spent` is `budget.record`, both of the
-- ledger; `parse` is `parse_response`, and `retry` is `on_retry` with the state of its caller.
module _ {S Money : Type 0} (in_budget : Money → Bool) (record_spent : ℕ → Money → Money)
    (provider : ℕ → ProviderFailure ⊎ Reply) (parse : String → Parsed)
    (retry : ℕ → String → S → S × Bool) where
  -- budget.check() and the provider's call.
  unfoldable pub attempt_call : ℕ → Money → ProviderFailure ⊎ Reply
  attempt_call attempt money =
      if in_budget money then provider attempt else inl ProviderFailure.budget_exceeded

  -- The loop from an attempt on, with the rounds that are left; none is its unreachable end.
  unfoldable pub attempts_from : ℕ → ℕ → Option String → S → Money → (S × Money) × Option Generated
  unfolding attempt_call is_transient judged
  attempts_from zero attempt last_error s money = ((s, money), none)
  attempts_from (suc rounds) attempt last_error s money = elim (attempt_call attempt money) [
    | inr reply ↦ (
      (s, record_spent reply.cost_usd money),
      some (judged (parse reply.text).suggestions (parse reply.text).errors attempt),
    )
    | inl failure ↦ elim (ltb attempt max_attempts && is_transient failure) [
      | false ↦ ((s, money), some (stopped Final.failed (some (described failure)) attempt))
      | true ↦
          let (s', goes_on) = retry (suc attempt) (described failure) s in
          elim goes_on [
            | false ↦
                ((s', money), some (stopped Final.cancelled (some (described failure)) attempt))
            | true ↦ attempts_from rounds (suc attempt) (some (described failure)) s' money
          ]
    ]
  ]

  unfoldable pub generate : S → Money → (S × Money) × Option Generated
  generate s money = attempts_from max_attempts 1 none s money
