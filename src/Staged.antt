-- ===== src/Staged.antt =====
-- apps/backend/repositories/staged.py: the staging of scraped products and their review.
pub mod Rows
pub mod Review
pub mod Staging
pub mod Steps
pub mod Reviews
pub mod Approval
pub mod Stepped
pub mod Audit
pub mod Validity
pub mod Visibility
mod Tests
