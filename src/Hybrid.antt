-- ===== src/Hybrid.antt =====
-- apps/backend/search/hybrid.py: the fusion of a lexical and a semantic ranking.
pub mod Sorting
pub mod Fusion
pub mod Page
pub mod Ranked
pub mod Eligible
pub mod Scanned
pub mod Tests
