-- ===== src/Tests/Start.antt =====
-- The two services as their start-up builds them.
use flash_deals.Base.{true, negsuc, none, some, refl}
use flash_deals.Env.{Environment}
use flash_deals.Order.Start.{load}
use flash_deals.Order.Start.Main
use flash_deals.Order.Start.Main.{OrderApp, order_app, start_order}
use flash_deals.Order.Start.Ready.{Starts, start_order-Starts}
use flash_deals.Order.Client.Init.{ClientState}
use flash_deals.Order.Handler.Create.{create_order_handler}
use flash_deals.Product.Start
use flash_deals.Product.Start.Choice.{SameButCache}
use flash_deals.Product.Start.Main as ProductMain
use flash_deals.Product.Start.Main.{ProductApp, product_app, serve_grpc}
use flash_deals.Product.Start.Ready.{start_product-update_stock}
use flash_deals.Product.Server.{ProductServer, update_stock, product_service}
use flash_deals.Product.Server.View.{db_server}
use flash_deals.System.Http.{HttpPlaces}
use flash_deals.System.Started.{started-HttpPlaces}
use flash_deals.Tests.World.{unary_ids, hotdeals}
use flash_deals.Tests.Orders.{warm_start, warm_start-IsReady}
use flash_deals.Tests.Http.{body, body-AllOrdered}
use flash_deals.Tests.Cache.{warm, warm-IsCoherent}

-- Everything that can be switched on is.
abbrev worded : Environment
worded = record { get = λ key. "yes"; parse_bool = λ t. some true; atoi = λ t. none }

-- Redis does not answer.
abbrev no_redis : Main.StartCalls
no_redis = record { tracer = none; pool = none; dial = none; ping = some "refused"; serve = none }

-- All calls succeed.
abbrev orders_well : Main.StartCalls
orders_well = record { tracer = none; pool = none; dial = none; ping = none; serve = none }

abbrev products_well : ProductMain.StartCalls
products_well = record { tracer = none; pool = none; ping = none; listen = none; serve = none }

abbrev connected : ClientState
connected = record { once = true; connected = true; has_client = true }

-- The queue of orders, the cache and the hot deals are switched on.
abbrev order_service : OrderApp
order_service = record (order_app (load worded) orders_well connected) {
  handler = record { async_enabled = true; has_queue = true };
  worker = true;
}

abbrev products : ProductApp
products = product_app (Start.load worded) products_well

abbrev grpc_server : ProductServer
grpc_server = Start.start_server (Start.load worded) true

start_order-Starts_example : Starts worded no_redis (start_order worded no_redis)
start_order-Starts_example = start_order-Starts worded no_redis

started-HttpPlaces_example :
    HttpPlaces unary_ids true (some hotdeals) "uuuuuuu" (some body) warm_start true (
      create_order_handler unary_ids
        (product_service unary_ids grpc_server)
        order_service.handler
        "uuuuuuu"
        (some body)
        warm_start)
unfolding start_order Main.order_app load ProductMain.start_product ProductMain.serve_http
    Main.serve_http Start.load Start.start_server
started-HttpPlaces_example =
    started-HttpPlaces worded orders_well order_service refl worded products_well products
      grpc_server refl refl unary_ids "uuuuuuu" (some body) warm_start refl refl
      warm_start-IsReady.valid tt body-AllOrdered

start_product-update_stock_example :
    SameButCache
      (update_stock unary_ids grpc_server "u" (negsuc 1) warm)
      (update_stock unary_ids (db_server products.handler.hotdeal_repo) "u" (negsuc 1) warm)
unfolding ProductMain.start_product Start.load
start_product-update_stock_example =
    start_product-update_stock worded products_well products grpc_server unary_ids "u" (negsuc 1)
      warm refl refl refl refl warm-IsCoherent
