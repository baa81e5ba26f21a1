-- ===== src/Gateway/Tests.antt =====
-- A run of the gateway, and its theorem at it: the first model fails, and the second answers.
use elegance_shawls.Gateway.Chain.{ChainSettings, LlmResult, ProviderReply}
use elegance_shawls.Gateway.Budget.{BudgetLimits, Ledger}
use elegance_shawls.Base.{Bool, Option, String, [], if◌then◌else◌, none, some, str_eq, true, ℕ, ◌∷◌}

abbrev two_models : ChainSettings
two_models = record {
  llm_production_chain = "free/a" ∷ "b/one" ∷ "c/two" ∷ [];
  llm_chain_default = [];
  llm_max_attempts = 3;
}

abbrev budgets : BudgetLimits
budgets = record { daily_limit = 100; environment_limit = 1000 }

abbrev spent : Ledger
spent = record { daily = some ("mon", 40); spent_total = 400 }

abbrev answer : ProviderReply
answer = record { reply_text = "hello"; input_tokens = 5; output_tokens = 2; cost_usd = 7 }

abbrev replies : ℕ → String → Option ProviderReply
replies attempt model = if str_eq model "c/two" then some answer else none

abbrev is_free : String → Bool
is_free model = str_eq model "free/a"

abbrev second : LlmResult
second = record { reply = answer; model = "c/two"; attempts = 2; fallback_used = true }
