-- ===== src/Catalogue/Samples.antt =====
-- A product, for the runs of the tests.
use elegance_shawls.Base.{[], none, some, true, ℕ, ◌∷◌}
use elegance_shawls.Catalogue.Rows.{Product, ProductStatus, Variant}

abbrev pub shawl_variant : Variant
shawl_variant = record {
  id = 71;
  position = 0;
  name = "Black";
  color = some "black";
  size = "Free Size";
  image_url = "b.jpg";
  price = 5000;
  currency = "PKR";
  stock = 2;
  description = none;
  is_active = true;
}

abbrev pub shawl : ℕ → ℕ → ProductStatus → Product
shawl id created_at status = record {
  id = id;
  slug = "shawl";
  name = "shawl";
  category = "shawls";
  status = status;
  cover_image_url = "b.jpg";
  images = "b.jpg" ∷ [];
  main_description = none;
  price = 5000;
  currency = "PKR";
  material = none;
  sizing = none;
  weight = none;
  item_number = none;
  revision = 1;
  created_at = created_at;
  updated_at = created_at;
  variants = shawl_variant ∷ [];
}
