-- ===== src/Catalogue.antt =====
-- The catalogue rows (apps/backend/models/relational_model.py) and their repository
-- (apps/backend/repositories/products.py).
pub mod Rows
pub mod Errors
pub mod Inputs
pub mod Products
pub mod Created
pub mod Samples
