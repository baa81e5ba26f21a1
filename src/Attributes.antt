-- ===== src/Attributes.antt =====
-- apps/backend/catalog/attributes.py and apps/backend/repositories/attributes.py: the normalised
-- attributes of products and variants.
pub mod Values
pub mod Rows
pub mod Writes
pub mod Trust
pub mod Entries
pub mod Latest
pub mod Again
pub mod Tests
