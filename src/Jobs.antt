-- ===== src/Jobs.antt =====
-- apps/backend/repositories/jobs.py: the ingestion-job table, its operations and their properties.
pub mod Row
pub mod Queue
pub mod Leases
pub mod Claiming
pub mod Validity
pub mod History
pub mod Protection
pub mod Retries
mod Tests
