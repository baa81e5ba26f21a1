-- ===== src/RateLimit.antt =====
-- apps/backend/security/rate_limit.py: the request limiter.
pub mod Limiter
pub mod Window
mod Tests
