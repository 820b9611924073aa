-- ===== src/Product/Repository.antt =====
-- The interface ProductRepository of services/product/go/internal/repository/interface.go, and its
-- implementation over PostgreSQL, db_repository.go.
pub mod Locking
pub mod Touches
pub mod Cached
use flash_deals.Base.{
  ℕ, ℤ, pos, ltb_ℤ, add32, String, some, List, Uuid, Result, ok, err, Exec, pure, raise, ◌>>=◌,
  ◌>>◌, if◌then◌else◌,
}
use flash_deals.Product.State.{
  ProductProduct, ProductDeal, ProductWorld, Db, Error, insufficient, on_db, begin_tx, in_tx,
  commit_tx,
}
use flash_deals.Product.Queries
use flash_deals.Product.Queries.Deals
use flash_deals.Product.Queries.Lists
use flash_deals.Product.Queries.Lists.{ListActiveDealsRow}
use flash_deals.Product.Queries.Deals.{CreateDealParams, GetDealByIdRow}
use flash_deals.Product.Queries.{
  CreateProductParams, UpdateProductParams, GetStockForUpdateRow, UpdateStockRow,
}

pub record ProductRepository : Type 0 where
  pub create_product : CreateProductParams → Exec ProductWorld Error ProductProduct
  pub get_product_by_id : Uuid → Exec ProductWorld Error ProductProduct
  pub list_products : ℤ → ℤ → Exec ProductWorld Error (List ProductProduct)
  pub list_products_by_category : String → ℤ → ℤ → Exec ProductWorld Error (List ProductProduct)
  pub count_products : Exec ProductWorld Error ℤ
  pub count_products_by_category : String → Exec ProductWorld Error ℤ
  pub update_product : UpdateProductParams → Exec ProductWorld Error ProductProduct
  pub get_stock_for_update : Uuid → Exec ProductWorld Error GetStockForUpdateRow
  pub update_stock : Uuid → ℤ → Exec ProductWorld Error UpdateStockRow
  pub update_stock_with_lock : Uuid → ℤ → Exec ProductWorld Error UpdateStockRow
  pub create_deal : CreateDealParams → Exec ProductWorld Error ProductDeal
  pub get_deal_by_id : Uuid → Exec ProductWorld Error GetDealByIdRow
  pub list_active_deals : ℕ → ℤ → ℤ → Exec ProductWorld Error (List ListActiveDealsRow)
  pub count_active_deals : ℕ → Exec ProductWorld Error ℤ
  pub invalidate_product : Uuid → Exec ProductWorld Error (Unit {0})
  pub invalidate_product_list : Exec ProductWorld Error (Unit {0})

unfoldable pub create_product : CreateProductParams → Exec ProductWorld Error ProductProduct
create_product arg = on_db (Queries.create_product arg)

unfoldable pub get_product_by_id : Uuid → Exec ProductWorld Error ProductProduct
get_product_by_id id = on_db (Queries.get_product_by_id id)

unfoldable pub list_products : ℤ → ℤ → Exec ProductWorld Error (List ProductProduct)
list_products limit offset = on_db (Lists.list_products (record { limit = limit; offset = offset }))

unfoldable pub list_products_by_category :
    String → ℤ → ℤ → Exec ProductWorld Error (List ProductProduct)
list_products_by_category category limit offset = on_db (
    Lists.list_products_by_category
      (record { category = some category; limit = limit; offset = offset }))

unfoldable pub count_products : Exec ProductWorld Error ℤ
count_products = on_db Lists.count_products

unfoldable pub count_products_by_category : String → Exec ProductWorld Error ℤ
count_products_by_category category = on_db (Lists.count_products_by_category (some category))

unfoldable pub update_product : UpdateProductParams → Exec ProductWorld Error ProductProduct
update_product arg = on_db (Queries.update_product arg)

unfoldable pub get_stock_for_update : Uuid → Exec ProductWorld Error GetStockForUpdateRow
get_stock_for_update id = on_db (Queries.get_stock_for_update id)

unfoldable pub update_stock : Uuid → ℤ → Exec ProductWorld Error UpdateStockRow
update_stock id stock = on_db (Queries.update_stock id stock)

-- Steps 3 and 4 of `UpdateStockWithLock`: the update, and the commit.
unfoldable pub write_stock : Uuid → ℤ → Db → Exec ProductWorld Error UpdateStockRow
write_stock id new_stock tx = do
  (row, tx') ← in_tx (Queries.update_stock id new_stock) tx
  commit_tx tx'
  pure row

-- Each early return drops `tx`, which is the deferred rollback.
unfoldable pub update_stock_with_lock : Uuid → ℤ → Exec ProductWorld Error UpdateStockRow
update_stock_with_lock id delta = do
  tx ← begin_tx
  (current, tx') ← in_tx (Queries.get_stock_for_update id) tx
  let new_stock = add32 current.stock delta
  if ltb_ℤ new_stock (pos 0)
      then raise (insufficient current.stock delta)
      else write_stock id new_stock tx'

unfoldable pub create_deal : CreateDealParams → Exec ProductWorld Error ProductDeal
create_deal arg = on_db (Deals.create_deal arg)

unfoldable pub get_deal_by_id : Uuid → Exec ProductWorld Error GetDealByIdRow
get_deal_by_id id = on_db (Deals.get_deal_by_id id)

unfoldable pub list_active_deals : ℕ → ℤ → ℤ → Exec ProductWorld Error (List ListActiveDealsRow)
list_active_deals now limit offset =
    on_db (Lists.list_active_deals (record { starts_at = now; limit = limit; offset = offset }))

unfoldable pub count_active_deals : ℕ → Exec ProductWorld Error ℤ
count_active_deals now = on_db (Lists.count_active_deals now)

-- Nothing is cached here.
abbrev pub invalidate_product : Uuid → Exec ProductWorld Error (Unit {0})
invalidate_product id = pure tt

abbrev pub invalidate_product_list : Exec ProductWorld Error (Unit {0})
invalidate_product_list = pure tt

abbrev pub db_repository : ProductRepository
db_repository = record {
  create_product = create_product;
  get_product_by_id = get_product_by_id;
  list_products = list_products;
  list_products_by_category = list_products_by_category;
  count_products = count_products;
  count_products_by_category = count_products_by_category;
  update_product = update_product;
  get_stock_for_update = get_stock_for_update;
  update_stock = update_stock;
  update_stock_with_lock = update_stock_with_lock;
  create_deal = create_deal;
  get_deal_by_id = get_deal_by_id;
  list_active_deals = list_active_deals;
  count_active_deals = count_active_deals;
  invalidate_product = invalidate_product;
  invalidate_product_list = invalidate_product_list;
}
