-- ===== src/Cursors.antt =====
-- apps/backend/utils/pagination.py: the opaque cursors of the listings.
pub mod Codec
pub mod Roundtrip
pub mod Tests
