-- ===== src/Fetcher.antt =====
-- apps/backend/ingestion/safe_fetch.py: guarded fetching of a source's pages.
pub mod Policy
pub mod Transfer
pub mod Redirects
pub mod Guarded
mod Tests
