-- ===== src/Worker.antt =====
-- apps/backend/ingestion/worker.py: one job after another, over the table of jobs.
pub mod Process
pub mod Settled
pub mod Tests
