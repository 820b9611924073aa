-- ===== src/Tests/Lists.antt =====
-- Lists of orders and deals.
use flash_deals.Base.{
  String, ℤ, pos, Option, none, some, [], ◌∷◌, ◌++◌, map, ◌≡◌, refl, arith, take, drop, mul32,
  sub32,
}
use flash_deals.Product.State.{ProductDeal, Db}
use flash_deals.Order.Service.Lists.{list_orders}
use flash_deals.Order.Service.Lists.Own.{shown, answered_page, asked, list_orders_lem}
use flash_deals.Order.Service.Lists.Pages.{orders_of, own, list_orders-pages}
use flash_deals.Order.Handler.{list_orders_handler}
use flash_deals.Order.Handler.Bounds.{Lists, list_orders_handler-Lists}
use flash_deals.Tests.World.{unary_ids, shop, start}

abbrev no_number : String → Option ℤ
no_number t = none

list_orders_handler-Lists_example :
    Lists unary_ids "uuuuuuu" start
      (list_orders_handler unary_ids no_number "uuuuuuu" "x" "" "pending" start)
list_orders_handler-Lists_example =
    list_orders_handler-Lists unary_ids no_number "x" "" "uuuuuuu" "pending" start

list_orders_lem_example : list_orders 7 (pos 1) (pos 20) (some "pending") start ≡ (
  answered_page start.db
      (pos 20)
      (mul32 (sub32 (pos 1) (pos 1)) (pos 20))
      (asked 7 (some "pending") start.db.orders),
  start,
)
list_orders_lem_example = list_orders_lem 7 (pos 1) (pos 20) (some "pending") start refl

list_orders-pages_example :
    orders_of (list_orders 7 (pos 1) (pos 20) none start).0
      ++ orders_of (list_orders 7 (pos 2) (pos 20) none start).0
    ≡ map (shown start.db) (take 40 (drop 0 (own 7 start.db)))
list_orders-pages_example = list_orders-pages 7 start refl 0 20 (ground arith) (ground arith)

abbrev deal : ProductDeal
deal = record {
  id = 40;
  product_id = 1;
  deal_price = pos 50;
  deal_stock = pos 5;
  remaining_stock = pos 5;
  starts_at = 3;
  ends_at = 8;
  created_at = 2;
}

abbrev sale : Db
sale = record shop.db { deals = deal ∷ record deal { id = 41; starts_at = 6 } ∷ [] }
