-- ===== src/Gateway/Budget.antt =====
-- class BudgetTracker of apps/backend/llm/gateway.py. Costs are natural numbers of a small unit of
-- money; what the shared ledger in Redis answers is an argument, none while it is unavailable.
use elegance_shawls.Base.{
  ◌&&◌, ◌+◌, Bool, Option, String, if◌then◌else◌, leb, max, none, not, some, str_eq, ℕ,
}

-- `_daily` has one day at most, and `spent_total` is the local total.
pub record Ledger : Type 0 where
  pub daily : Option (String × ℕ)
  pub spent_total : ℕ

pub record BudgetLimits : Type 0 where
  pub daily_limit : ℕ
  pub environment_limit : ℕ

abbrev pub spent_today : String → Ledger → ℕ
spent_today day ledger = elim ledger.daily [
  | none ↦ 0
  | some (d, spent) ↦ if str_eq d day then spent else 0
]

-- `_spent`: the larger of the local and the shared ledger.
unfoldable pub spent_sums : Option (ℕ × ℕ) → String → Ledger → ℕ × ℕ
spent_sums none day ledger = (spent_today day ledger, ledger.spent_total)
spent_sums (some (shared_day, shared_total)) day ledger =
    (max (spent_today day ledger) shared_day, max ledger.spent_total shared_total)

-- `check`: whether both budgets have something left.
unfoldable pub in_budget : BudgetLimits → Option (ℕ × ℕ) → String → Ledger → Bool
unfolding spent_sums
in_budget limits shared day ledger =
    let sums = spent_sums shared day ledger in
    not (leb limits.daily_limit sums.0) && not (leb limits.environment_limit sums.1)

-- The local part of `record`.
unfoldable pub record_cost : String → ℕ → Ledger → Ledger
record_cost day cost ledger = record {
  daily = some (day, spent_today day ledger + cost);
  spent_total = ledger.spent_total + cost;
}
