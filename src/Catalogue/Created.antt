-- ===== src/Catalogue/Created.antt =====
-- apps/backend/repositories/products.py: what a product's creation that succeeds has written.
use elegance_shawls.Catalogue.Errors.{returned}
use elegance_shawls.Catalogue.Products.{insert_product}
use elegance_shawls.Catalogue.Inputs.{ProductInput, new_product}
use elegance_shawls.Catalogue.Rows.{Product}
use elegance_shawls.Base.{◌++◌, Bool, List, String, [], arith, ℕ, ◌∷◌, ◌≡◌}

pub new_product-returned :
    (upper : String → String) (id : ℕ) (draw : ℕ → ℕ) (now : ℕ) (input : ProductInput) {p : Product}
    → new_product upper id draw now input ≡ returned p
    → (p.id ≡ id) × (p.status ≡ input.status)
unfolding new_product
new_product-returned upper id draw now input e = ground arith

pub insert_product-returned :
    (slug_format known_category : String → Bool) (p : Product) (products : List Product)
    {products' : List Product} {created : Product}
    → insert_product slug_format known_category p products ≡ returned (products', created)
    → (products' ≡ products ++ p ∷ []) × (created ≡ p)
unfolding insert_product
insert_product-returned slug_format known_category p products e = ground arith
