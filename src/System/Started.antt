-- ===== src/System/Started.antt =====
-- An order that comes in over HTTP, where both services are as their start-up has built them.
use mathlib.Core.Path.{◌∙◌, subst}
use flash_deals.Base.{String, Bool, ◌≡◌, sym, Option, some, List, [], UuidText, ok, NoLost}
use flash_deals.Env.{Environment}
use flash_deals.Product.State.{ProductWorld}
use flash_deals.Product.Server.{ProductServer, product_service}
use flash_deals.Product.Server.Cache.Promises.{view_over}
use flash_deals.Product.Start.Main as ProductMain
use flash_deals.Product.Start.Main.{ProductApp, start_product}
use flash_deals.Product.Start.Ready.{caches, start_product-server_over}
use flash_deals.Order.State.{OrderWorld}
use flash_deals.Order.Service.{OrderItemRequest}
use flash_deals.Order.Service.Stock.Decrease.{AllOrdered}
use flash_deals.Order.Handler.Create.{CreateOrderRequest, decode, create_order_handler}
use flash_deals.Order.Start.{load}
use flash_deals.Order.Start.Main.{StartCalls, OrderApp, start_order}
use flash_deals.Order.Start.Ready.{Starts, start_order-Starts}
use flash_deals.System.Http.{HttpPlaces, create_order_handler-HttpPlaces}

module _ (env : Environment) (calls : StartCalls) (app : OrderApp)
    (started : start_order env calls ≡ ok app) where
  ready : Starts env calls (ok app)
  ready = subst (Starts env calls) started (start_order-Starts env calls)

  module _ (products_env : Environment) (products_calls : ProductMain.StartCalls)
      (products : ProductApp) (s : ProductServer)
      (products_started : start_product products_env products_calls ≡ ok products)
      (serving : products.server ≡ some s) where
    -- Both services have started, the product service with its gRPC server, and the order service calls it
    -- with the client of the start. Then, whatever the environments say: for a body whose quantities, if it
    -- is a request at all, are positive, with no failing gRPC call, no failing call in the product service,
    -- cached products (if it caches them) that are those of the table, and no lost answer of the order
    -- service's own database and Redis, an answer to `POST /orders` with an order is 202, its stock is
    -- taken, and its rows are written, or its message is queued where the environment of the order service
    -- switches the queue on; every other answer leaves all shown stocks and all rows as they were.
    pub started-HttpPlaces :
        (ids : UuidText) (user_id_str : String) (body : Option CreateOrderRequest)
        (w : OrderWorld ProductWorld)
        → w.connected ≡ app.client.has_client
        → w.net ≡ []
        → (view_over (caches products_env products_calls) s.hotdeal_repo).Valid w.remote
        → NoLost w.script
        → ((items : List OrderItemRequest) → decode ids body ≡ ok items → AllOrdered items)
        → HttpPlaces ids
            (caches products_env products_calls)
            s.hotdeal_repo
            user_id_str
            body
            w
            (load env).async_order_enabled
            (create_order_handler ids (product_service ids s) app.handler user_id_str body w)
    started-HttpPlaces ids user_id_str body w connected net valid n ordered =
        subst
          (λ a.
            HttpPlaces ids cached s.hotdeal_repo user_id_str body w a
              (create_order_handler ids (product_service ids s) app.handler user_id_str body w))
          ready.4
          (subst
            (λ x.
              HttpPlaces ids cached s.hotdeal_repo user_id_str body w app.handler.async_enabled
                (create_order_handler ids (product_service ids x) app.handler user_id_str body w))
            (sym (
              start_product-server_over products_env products_calls products s products_started
                serving))
            (create_order_handler-HttpPlaces ids cached s.hotdeal_repo w
              (record { valid = valid; no_faults = net; connected = connected ∙ ready.7 }) n
              user_id_str body app.handler ordered))
      where
        cached : Bool
        cached = caches products_env products_calls
