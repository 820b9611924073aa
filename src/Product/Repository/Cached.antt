-- ===== src/Product/Repository/Cached.antt =====
-- The repository with a cache in Redis, services/product/go/internal/repository/cached_repository.go.
-- A key's time to live is not modelled: the environment may drop a key between two calls, as in
-- `expire`.
pub mod Keys
pub mod Coherence
pub mod Lists
pub mod Pages
pub mod Updates
use text.Mathlib.Text.{◌==◌ as str_eq}
use flash_deals.Base.{
  ◌==◌, ℕ, ℤ, eq_ℤ, Bool, ◌&&◌, String, Option, none, some, List, [], ◌∷◌, Uuid, Result, ok, err,
  Exec, pure, ◌>>=◌, ◌>>◌, find_by, map, if◌then◌else◌,
}
use flash_deals.Product.State.{
  ProductProduct, ProductDeal, ProductWorld, Redis, Stored, json, garbage, Error, redis_nil,
  on_redis,
}
use flash_deals.Product.Queries.{
  CreateProductParams, UpdateProductParams, GetStockForUpdateRow, UpdateStockRow,
}
use flash_deals.Product.Queries.Deals.{CreateDealParams, GetDealByIdRow}
use flash_deals.Product.Queries.Lists.{ListActiveDealsRow}
use flash_deals.Product.Repository
use flash_deals.Product.Repository.{ProductRepository}

-- The families of keys in Redis, as maps.
abbrev pub product_key : Uuid × Stored ProductProduct → Uuid
product_key (k, _) = k

abbrev pub cached_at : Uuid → Redis → Option (Stored ProductProduct)
cached_at id r = elim (find_by product_key id r.cached_products) [
  | none ↦ none
  | some (_, v) ↦ some v
]

abbrev pub drop_product :
    Uuid → List (Uuid × Stored ProductProduct) → List (Uuid × Stored ProductProduct)
drop_product k [] = []
drop_product k ((j, v) ∷ kvs) =
    let others = drop_product k kvs in if j == k then others else (j, v) ∷ others

abbrev pub same_page : ℤ × ℤ → ℤ × ℤ → Bool
same_page (l, o) (l', o') = eq_ℤ l l' && eq_ℤ o o'

abbrev pub list_at :
    ℤ × ℤ → List ((ℤ × ℤ) × Stored (List ProductProduct)) → Option (Stored (List ProductProduct))
list_at k [] = none
list_at k ((j, v) ∷ kvs) = let others = list_at k kvs in if same_page j k then some v else others

abbrev pub drop_list :
    ℤ × ℤ
    → List ((ℤ × ℤ) × Stored (List ProductProduct))
    → List ((ℤ × ℤ) × Stored (List ProductProduct))
drop_list k [] = []
drop_list k ((j, v) ∷ kvs) =
    let others = drop_list k kvs in if same_page j k then others else (j, v) ∷ others

abbrev found : {A : Type 0} → Option (Stored A) → Result Error (Stored A)
found none = err redis_nil
found (some v) = ok v

-- GET, SET and DEL of `product:ID`
abbrev pub get_product_key : Uuid → Exec Redis Error (Stored ProductProduct)
get_product_key id r = (found (cached_at id r), r)

abbrev pub set_product_key : Uuid → ProductProduct → Exec Redis Error (Unit {0})
set_product_key id p r =
    (ok tt, record r { cached_products = (id, json p) ∷ drop_product id r.cached_products })

abbrev pub del_product_key : Uuid → Exec Redis Error (Unit {0})
del_product_key id r = (ok tt, record r { cached_products = drop_product id r.cached_products })

-- GET, SET and DEL of `products:list:LIMIT:OFFSET`, and the SCAN for these keys
abbrev pub get_list_key : ℤ × ℤ → Exec Redis Error (Stored (List ProductProduct))
get_list_key k r = (found (list_at k r.cached_lists), r)

abbrev pub set_list_key : ℤ × ℤ → List ProductProduct → Exec Redis Error (Unit {0})
set_list_key k ps r = (ok tt, record r { cached_lists = (k, json ps) ∷ drop_list k r.cached_lists })

abbrev pub del_list_key : ℤ × ℤ → Exec Redis Error (Unit {0})
del_list_key k r = (ok tt, record r { cached_lists = drop_list k r.cached_lists })

abbrev pub list_key : (ℤ × ℤ) × Stored (List ProductProduct) → ℤ × ℤ
list_key (k, _) = k

abbrev scan_list_keys : Exec Redis Error (List (ℤ × ℤ))
scan_list_keys r = (ok (map list_key r.cached_lists), r)

-- `err == nil` and then `json.Unmarshal(...) == nil`
abbrev pub cache_hit : {A : Type 0} → Result Error (Stored A) → Option A
cache_hit (ok (json a)) = some a
cache_hit (ok (garbage t)) = none
cache_hit (err e) = none

-- A call whose answer is not looked at.
abbrev pub ignoring : {A B : Type 0} → Exec ProductWorld Error A → B → Exec ProductWorld Error B
ignoring m b w = (ok b, (m w).1)

unfoldable pub invalidate_product : Uuid → Exec ProductWorld Error (Unit {0})
invalidate_product id = on_redis (del_product_key id)

-- The loop over the keys that the scan has found.
unfoldable pub delete_lists : List (ℤ × ℤ) → Exec ProductWorld Error (Unit {0})
delete_lists [] = pure tt
delete_lists (k ∷ ks) = ignoring (on_redis (del_list_key k)) tt >> delete_lists ks

-- One SCAN stands for the calls that the iterator makes.
unfoldable pub invalidate_product_list : Exec ProductWorld Error (Unit {0})
unfolding delete_lists
invalidate_product_list = do keys ← on_redis scan_list_keys; delete_lists keys

unfoldable pub create_product : CreateProductParams → Exec ProductWorld Error ProductProduct
unfolding invalidate_product_list
create_product arg = do
  product ← Repository.create_product arg
  ignoring invalidate_product_list product

-- The cache miss: the database, and then the key. `json.Marshal` of a product does not fail.
unfoldable pub load_product : Uuid → Exec ProductWorld Error ProductProduct
load_product id = do
  product ← Repository.get_product_by_id id
  ignoring (on_redis (set_product_key id product)) product

unfoldable pub get_product_by_id : Uuid → Exec ProductWorld Error ProductProduct
unfolding load_product
get_product_by_id id w =
    let (r, w') = on_redis (get_product_key id) w in
    elim (cache_hit r) [ some product ↦ (ok product, w') | none ↦ load_product id w' ]

unfoldable pub load_list : ℤ → ℤ → Exec ProductWorld Error (List ProductProduct)
load_list limit offset = do
  products ← Repository.list_products limit offset
  ignoring (on_redis (set_list_key (limit, offset) products)) products

unfoldable pub list_products : ℤ → ℤ → Exec ProductWorld Error (List ProductProduct)
unfolding load_list
list_products limit offset w =
    let (r, w') = on_redis (get_list_key (limit, offset)) w in
    elim (cache_hit r) [ some products ↦ (ok products, w') | none ↦ load_list limit offset w' ]

unfoldable pub update_product : UpdateProductParams → Exec ProductWorld Error ProductProduct
unfolding invalidate_product invalidate_product_list
update_product arg = do
  product ← Repository.update_product arg
  ignoring (invalidate_product arg.id) tt
  ignoring invalidate_product_list product

unfoldable pub update_stock : Uuid → ℤ → Exec ProductWorld Error UpdateStockRow
unfolding invalidate_product
update_stock id stock = do
  row ← Repository.update_stock id stock
  ignoring (invalidate_product id) row

unfoldable pub update_stock_with_lock : Uuid → ℤ → Exec ProductWorld Error UpdateStockRow
unfolding invalidate_product
update_stock_with_lock id delta = do
  row ← Repository.update_stock_with_lock id delta
  ignoring (invalidate_product id) row

-- Categories, counts, the stock for an update, and deals are not cached.
abbrev pub cached_repository : ProductRepository
cached_repository = record {
  create_product = create_product;
  get_product_by_id = get_product_by_id;
  list_products = list_products;
  list_products_by_category = Repository.list_products_by_category;
  count_products = Repository.count_products;
  count_products_by_category = Repository.count_products_by_category;
  update_product = update_product;
  get_stock_for_update = Repository.get_stock_for_update;
  update_stock = update_stock;
  update_stock_with_lock = update_stock_with_lock;
  create_deal = Repository.create_deal;
  get_deal_by_id = Repository.get_deal_by_id;
  list_active_deals = Repository.list_active_deals;
  count_active_deals = Repository.count_active_deals;
  invalidate_product = invalidate_product;
  invalidate_product_list = invalidate_product_list;
}
