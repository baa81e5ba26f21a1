-- ===== src/Gateway.antt =====
-- apps/backend/llm/gateway.py: the chain of language models and its budget.
pub mod Budget
pub mod Chain
pub mod Fallback
mod Tests
