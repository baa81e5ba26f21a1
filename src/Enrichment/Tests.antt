-- ===== src/Enrichment/Tests.antt =====
-- Runs of the enrichment, and the theorems at concrete tables.
use elegance_shawls.Enrichment.Settled.{Run, process-Ran}
use elegance_shawls.Enrichment.Attempts.{IsOutcome, generate_total}
use elegance_shawls.Enrichment.Generate.{
  Generated, Parsed, ProviderFailure, Reply, attempts_from, generate,
}
use elegance_shawls.Base.{
  ◌-◌, ◌==◌, Bool, String, [], if◌then◌else◌, find, inl, inr, leb, none, refl, some, suc, true, ℕ,
  ◌∷◌, ◌≡◌, ◌⊎◌,
}
use elegance_shawls.Enrichment.Suggestions.{
  Asked, Suggestions, Final, find_suggestion, new_suggestion, withdrawn,
}
use elegance_shawls.Enrichment.Lifecycle.{Op, apply, Reach, Reach-IsSound, apply-closed, IsSound}

abbrev asked : Asked
asked = record {
  staged_id = 5;
  input_hash = "h";
  prompt_version = "p1";
  model = "m";
  vocabulary_version = "v1";
  provider = "fake";
  trace_id = none;
}

abbrev waiting : Suggestions
waiting = new_suggestion 1 10 asked ∷ []

Reach-IsSound_example : IsSound (apply (Op.claim_one 1 20) (apply (Op.create_one 1 10 asked) []))
unfolding find
Reach-IsSound_example =
    Reach-IsSound
      (Reach.next (Op.claim_one 1 20) (Reach.next (Op.create_one 1 10 asked) Reach.start refl) tt)

apply-closed_example :
    find_suggestion 1 (apply (Op.claim_one 1 40) (withdrawn 30 (new_suggestion 1 10 asked) ∷ []))
    ≡ some (withdrawn 30 (new_suggestion 1 10 asked))
unfolding find
apply-closed_example =
    apply-closed (Op.claim_one 1 40) (withdrawn 30 (new_suggestion 1 10 asked) ∷ []) 1 refl refl

-- The first attempt times out, and the second is answered.
abbrev answers : ℕ → ProviderFailure ⊎ Reply
answers attempt =
    if attempt == 1
    then inl (ProviderFailure.timed_out "TimeoutError")
    else inr (record { text = "{}"; cost_usd = 3 })

abbrev accepts : String → Parsed
accepts text = record { suggestions = some text; errors = [] }

abbrev go_on : ℕ → String → ℕ → ℕ × Bool
go_on attempt error retries = (suc retries, true)

abbrev rich : ℕ → Bool
rich money = leb 1 money

second_attempt : generate rich (λ cost money. money - cost) answers accepts go_on 0 10 ≡ (
  (1, 7),
  some (record {
    ending = record {
      final = Final.succeeded;
      suggestions = some "{}";
      validation_errors = [];
      last_error = none;
    };
    attempts = 2;
  }),
)
unfolding generate attempts_from
second_attempt = refl

generate_total_example :
    (st : ℕ × ℕ) × (g : Generated) × (generate rich
        (λ cost money. money - cost)
        answers
        accepts
        go_on
        0
        10
      ≡ (st, some g))
    × IsOutcome rich (λ cost money. money - cost) answers accepts go_on 10 1 g
generate_total_example = generate_total rich (λ cost money. money - cost) answers accepts go_on 0 10

process-Ran_example :
    Run
      (λ d. "h")
      (λ n rows. rows)
      rich
      (λ cost money. money - cost)
      (λ r. answers)
      accepts
      20
      1
      (λ n rows h. h)
      []
      waiting
      10
process-Ran_example =
    process-Ran (λ d. "h") (λ n rows. rows) rich (λ cost money. money - cost) (λ r. answers) accepts
      20 1 (λ n rows h. h) [] waiting 10
