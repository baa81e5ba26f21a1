-- ===== src/Search.antt =====
-- apps/backend/catalog/search.py: catalogue search.
pub mod Match
pub mod Page
pub mod Batches
pub mod Complete
pub mod Refused
mod Tests
