-- ===== src/Fx.antt =====
-- apps/backend/ingestion/fx.py: the reference rate to the rupee, with its cache.
pub mod Rates
pub mod Plausible
pub mod Tests
