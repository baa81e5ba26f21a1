-- ===== src/Sitemaps.antt =====
-- apps/backend/ingestion/sitemap.py: the discovery of a source's products in its sitemaps.
pub mod Fetch
pub mod Discover
pub mod Bounded
pub mod Tests
