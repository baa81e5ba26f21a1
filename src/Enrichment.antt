-- ===== src/Enrichment.antt =====
-- apps/backend/repositories/enrichment.py and apps/backend/enrichment: model suggestions for staged
-- products.
pub mod Suggestions
pub mod Open
pub mod Lifecycle
pub mod Generate
pub mod Process
pub mod Attempts
pub mod Settled
mod Tests
