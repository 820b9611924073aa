-- ===== src/Product/Repository/Cached/Keys.antt =====
-- The cached products as a map.
use flash_deals.Base.{◌==◌, ◌≡◌, none, some, List, [], ◌∷◌, Uuid, find_by, arith, if◌then◌else◌}
use flash_deals.Product.State.{ProductProduct, Redis, Stored, json}
use flash_deals.Product.Repository.Cached.{
  product_key, cached_at, drop_product, set_product_key, del_product_key,
}

find-drop_product :
    (j id : Uuid) (kvs : List (Uuid × Stored ProductProduct))
    → find_by product_key j (drop_product id kvs)
      ≡ (if j == id then none else find_by product_key j kvs)
find-drop_product j id [] = ground arith
find-drop_product j id ((k, v) ∷ kvs) = ground (arith, find-drop_product j id kvs)

-- A deleted key is gone, and the others stay.
pub cached_at-del :
    (j id : Uuid) (r : Redis)
    → cached_at j (del_product_key id r).1 ≡ (if j == id then none else cached_at j r)
cached_at-del j id r = ground (arith, find-drop_product j id r.cached_products)

pub cached_at-set :
    (j id : Uuid) (p : ProductProduct) (r : Redis)
    → cached_at j (set_product_key id p r).1 ≡ (if j == id then some (json p) else cached_at j r)
cached_at-set j id p r = ground (arith, find-drop_product j id r.cached_products)
