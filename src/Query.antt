-- ===== src/Query.antt =====
-- apps/backend/catalog/query.py: the deterministic query parser.
pub mod Terms
pub mod Parse
pub mod Bounds
pub mod Words
pub mod Kept
mod Tests
