-- ===== src/System.antt =====
-- The two services together: the order service calls the gRPC server of the product service, over its
-- PostgreSQL and its Redis, with or without cached products.
pub mod Http
pub mod Started
use flash_deals.Base.{
  Bool, List, Option, String, Uuid, UuidText, ◌+ℤ◌, ◌≤ℤ◌, max_int32, map, NoLost,
}
use flash_deals.Product.State.{ProductWorld}
use flash_deals.Product.Hotdeal.{HotdealRepository}
use flash_deals.Product.Server.{product_service}
use flash_deals.Product.Server.Cache.Promises.{server_over, view_over, laws_over}
use flash_deals.Order.State.{OrderWorld}
use flash_deals.Order.Queries.{items_of}
use flash_deals.Order.Client.Stock.{IsReady}
use flash_deals.Order.Service.{OrderItemRequest, ShippingAddress}
use flash_deals.Order.Service.Stock.Restore.{demand, AllKnown, AllQuantities}
use flash_deals.Order.Service.Stock.Decrease.{AllOrdered}
use flash_deals.Order.Service.Create.{create_order}
use flash_deals.Order.Service.Create.Atomic.{Places, create_order-Places}
use flash_deals.Order.Service.Status.{cancel_order, to_restore}
use flash_deals.Order.Service.Status.Cancel.{Cancels, cancel_order-Cancels}

module _ (ids : UuidText) (cached : Bool) (h : Option HotdealRepository) (user_id : Uuid)
    (w : OrderWorld ProductWorld) (ready : IsReady (view_over cached h) w)
    (n : NoLost w.script) where
  -- Over a reliable connection, with no lost answer of the order database, where no call of the product
  -- service fails and its cached products, if it caches them, are those of the table, for positive
  -- quantities, and whether Redis or the table has a product's stock: a new order has taken exactly the
  -- stock of its items, and has added its rows; an order that fails has left every shown stock and all rows
  -- of the order service as they were.
  pub create_order-server :
      (items : List OrderItemRequest) (shipping : Option ShippingAddress)
      → AllOrdered items
      → Places
          (view_over cached h)
          user_id
          items
          shipping
          w
          (create_order ids (product_service ids (server_over cached h)) user_id items shipping w)
  unfolding laws_over
  create_order-server items shipping q =
      create_order-Places ids (product_service ids (server_over cached h)) (laws_over ids h cached)
        user_id items shipping w ready n q

  -- Over a reliable connection, with no lost answer of the order database, where no call of the product
  -- service fails and its cached products, if it caches them, are those of the table, and where the
  -- order's items are of known products, have positive quantities, and fit into the stock: a cancellation
  -- that succeeds found a pending or confirmed order of the user, has written the cancellation, and gives
  -- back exactly the stock of its items; one that fails changes no row and no stock.
  pub cancel_order-server :
      (order_id : Uuid) (reason : Option String)
      → AllKnown (view_over cached h) w.remote (map to_restore (items_of order_id w.db.order_items))
      → AllQuantities (map to_restore (items_of order_id w.db.order_items))
      → ((j : Uuid)
          → (view_over cached h).stock w.remote j
              +ℤ demand (map to_restore (items_of order_id w.db.order_items)) j
            ≤ℤ max_int32)
      → Cancels
          (view_over cached h)
          order_id
          user_id
          reason
          w
          (cancel_order ids (product_service ids (server_over cached h)) order_id user_id reason w)
  unfolding laws_over
  cancel_order-server order_id reason known q room =
      cancel_order-Cancels ids (product_service ids (server_over cached h)) (laws_over ids h cached)
        order_id user_id reason w ready n known q room
