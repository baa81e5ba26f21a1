-- ===== src/Catalogue/Rows.antt =====
-- classes Product and Variant of apps/backend/models/relational_model.py.
use elegance_shawls.Base.{Bool, List, Option, String, if◌then◌else◌, false, ltb, true, ℕ}

pub data ProductStatus : Type 0 where
  active draft archived out_of_stock : ProductStatus

abbrev pub is_active_status : ProductStatus → Bool
is_active_status ProductStatus.active = true
is_active_status _ = false

abbrev pub is_archived : ProductStatus → Bool
is_archived ProductStatus.archived = true
is_archived _ = false

pub record Variant : Type 0 where
  pub id : ℕ
  pub position : ℕ
  pub name : String
  pub color : Option String
  pub size : String
  pub image_url : String
  pub price : ℕ
  pub currency : String
  pub stock : ℕ
  pub description : Option String
  pub is_active : Bool

-- The generated column.
abbrev pub stock_status : Variant → String
stock_status v = if ltb 0 v.stock then "In stock" else "Out of stock"

pub record Product : Type 0 where
  pub id : ℕ
  pub slug : String
  pub name : String
  pub category : String
  pub status : ProductStatus
  pub cover_image_url : String
  pub images : List String
  pub main_description : Option String
  pub price : ℕ
  pub currency : String
  pub material : Option String
  pub sizing : Option String
  pub weight : Option String
  pub item_number : Option String
  pub revision : ℕ
  pub created_at : ℕ
  pub updated_at : ℕ
  pub variants : List Variant

-- The generated column: public visibility follows the status.
abbrev pub is_active : Product → Bool
is_active p = is_active_status p.status
