-- ===== src/Refresh.antt =====
-- apps/backend/ingestion/refresh.py: one bounded run over the products of a source.
pub mod Plan
pub mod Tally
pub mod Accounts
pub mod Tests
