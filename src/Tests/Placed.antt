-- ===== src/Tests/Placed.antt =====
-- `CreateOrder` over the server of the product service, as far as it runs on a concrete request.
use flash_deals.Base.{
  Bool, true, false, ◌≡◌, refl, none, some, Result, ok, err, add32, neg32, mul32,
}
use flash_deals.Product.Queries as PQ
use flash_deals.Product.Repository
use flash_deals.Product.Hotdeal.{has_stock, decrement_stock}
use flash_deals.Product.StockQueue.{queue_update_stock}
use flash_deals.Product.Server
use flash_deals.Product.Server.{product_service}
use flash_deals.Product.Server.View.{db_server}
use flash_deals.Order.Queries as OQ
use flash_deals.Order.Client
use flash_deals.Order.Service.{OrderResponse, Failure}
use flash_deals.Order.Service.Pricing.{price_items}
use flash_deals.Order.Service.Stock.{decrease_items}
use flash_deals.Order.Service.Create.{create_order}
use flash_deals.Tests.World.{unary_ids, hotdeals, start}
use flash_deals.Tests.Orders.{two_items}

is_order : Result Failure OrderResponse → Bool
is_order (ok r) = true
is_order (err e) = false

-- Two lamps from the table and a chair from Redis.
two_items_placed :
    is_order
      (create_order unary_ids
        (product_service unary_ids (db_server (some hotdeals)))
        7
        two_items
        none
        start).0
    ≡ true
unfolding is_order create_order price_items decrease_items Client.get_product Client.decrease_stock
    Server.get_product Server.product_message Server.update_stock Server.update_queued_stock
    Server.update_hotdeal_stock Repository.get_product_by_id Repository.update_stock_with_lock
    Repository.write_stock PQ.get_product_by_id PQ.get_stock_for_update PQ.update_stock
    OQ.create_order OQ.create_order_item has_stock decrement_stock queue_update_stock add32 neg32
    mul32
two_items_placed = refl
