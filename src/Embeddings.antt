-- ===== src/Embeddings.antt =====
-- apps/backend/repositories/embeddings.py and apps/backend/search/embedding_service.py: the vectors of
-- the catalogue.
pub mod Rows
pub mod Representation
pub mod Provider
pub mod Checked
pub mod Sources
pub mod Process
pub mod Published
pub mod Unpublished
pub mod Approved
pub mod Tests
