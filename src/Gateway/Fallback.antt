-- ===== src/Gateway/Fallback.antt =====
-- apps/backend/llm/gateway.py: which model answers, and what is charged.
use elegance_shawls.Gateway.Budget.{BudgetLimits, Ledger, in_budget, record_cost}
use elegance_shawls.Gateway.Chain.{ChainSettings, LlmResult, ProviderReply, chain}
use elegance_shawls.Base.{
  ◌+◌, ◌++◌, Bool, List, Option, String, [], inl, length, ltb, none, some, suc, true, ℕ, ◌∷◌, ◌≡◌,
  false,
}

abbrev pub AllFail : (ℕ → String → Option ProviderReply) → ℕ → List String → Type 0
AllFail call attempt [] = Unit
AllFail call attempt (m ∷ ms) = (call attempt m ≡ none) × AllFail call (suc attempt) ms

-- The result comes from the first model that replies, counted from `attempt`.
pub record IsFirstReply (call : ℕ → String → Option ProviderReply) (attempt : ℕ)
    (models : List String) (result : LlmResult) : Type 0 where
  pub failures : List String
  pub rest : List String
  pub chain_order : models ≡ failures ++ result.model ∷ rest
  pub all_failed : AllFail call attempt failures
  pub replied : call result.attempts result.model ≡ some result.reply
  pub attempt_number : result.attempts ≡ attempt + length failures
  pub fallback : result.fallback_used ≡ ltb 1 result.attempts

-- What an answer of `complete` rests on.
pub record IsAnswer (is_free_tier : String → Bool) (settings : ChainSettings)
    (limits : BudgetLimits) (shared : Option (ℕ × ℕ)) (call : ℕ → String → Option ProviderReply)
    (is_production personal : Bool) (day : String) (ledger ledger' : Ledger) (result : LlmResult)
    : Type 0 where
  pub models : List String
  pub chosen : chain is_free_tier settings is_production personal ≡ inl models
  pub first : IsFirstReply call 1 models result
  pub affordable : in_budget limits shared day ledger ≡ true
  pub charged : record_cost day result.reply.cost_usd ledger ≡ ledger'
  pub no_free_tier : personal ≡ true → is_free_tier result.model ≡ false
