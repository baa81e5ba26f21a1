-- ===== src/Gateway/Chain.antt =====
-- class LLMGateway of apps/backend/llm/gateway.py: the choice of models, and the calls in order. The
-- configured chains are lists already; `is_free_tier` is the function of that name, and `call` the
-- provider's reply to an attempt, none if it raised or ran out of time.
use elegance_shawls.Gateway.Budget.{BudgetLimits, Ledger, in_budget, record_cost}
use elegance_shawls.Base.{
  Bool, List, Option, String, [], if◌then◌else◌, false, inl, inr, ltb, max, none, not, select, some,
  suc, take, true, ℕ, ◌∷◌, ◌⊎◌,
}

pub data LlmError : Type 0 where
  llm_error personal_data_policy budget_exceeded all_providers_failed : LlmError

pub record ChainSettings : Type 0 where
  pub llm_production_chain : List String
  pub llm_chain_default : List String
  pub llm_max_attempts : ℕ

pub record ProviderReply : Type 0 where
  pub reply_text : String
  pub input_tokens : ℕ
  pub output_tokens : ℕ
  pub cost_usd : ℕ

pub record LlmResult : Type 0 where
  pub reply : ProviderReply
  pub model : String
  pub attempts : ℕ
  pub fallback_used : Bool

pub data Completed : Type 0 where
  answered : LlmResult → Completed
  failed : LlmError → Completed

-- models[: max(1, attempts)], or the error if there are none.
unfoldable pub capped : ℕ → LlmError → List String → List String ⊎ LlmError
capped attempts error [] = inr error
capped attempts error (m ∷ ms) = inl (take (max 1 attempts) (m ∷ ms))

-- `chain`: the models, or the error. Personal data go to the production chain without free tiers.
unfoldable pub chain :
    (String → Bool) → ChainSettings → (is_production personal : Bool) → List String ⊎ LlmError
unfolding capped
chain is_free_tier settings is_production true =
    capped settings.llm_max_attempts LlmError.personal_data_policy
      (select (λ m. not (is_free_tier m)) settings.llm_production_chain)
chain is_free_tier settings is_production false =
    capped settings.llm_max_attempts LlmError.llm_error
      (if is_production then settings.llm_production_chain else settings.llm_chain_default)

-- The loop of `complete`: the first model that replies.
unfoldable pub try_models : (ℕ → String → Option ProviderReply) → ℕ → List String → Option LlmResult
try_models call attempt [] = none
try_models call attempt (m ∷ ms) = elim (call attempt m) [
  | none ↦ try_models call (suc attempt) ms
  | some reply ↦
      some (record { reply = reply; model = m; attempts = attempt; fallback_used = ltb 1 attempt })
]

-- `complete`: the ledger after it, and the result or the error.
unfoldable pub complete :
    (String → Bool)
    → ChainSettings
    → BudgetLimits
    → Option (ℕ × ℕ)
    → (ℕ → String → Option ProviderReply)
    → (is_production personal : Bool) → String
    → Ledger
    → Ledger × Completed
unfolding chain try_models
complete is_free_tier settings limits shared call is_production personal day ledger =
    elim (chain is_free_tier settings is_production personal) [
      | inr error ↦ (ledger, Completed.failed error)
      | inl models ↦ elim (in_budget limits shared day ledger) [
        | false ↦ (ledger, Completed.failed LlmError.budget_exceeded)
        | true ↦ elim (try_models call 1 models) [
          | none ↦ (ledger, Completed.failed LlmError.all_providers_failed)
          | some result ↦ (record_cost day result.reply.cost_usd ledger, Completed.answered result)
        ]
      ]
    ]
