-- ===== src/Product/Start/Main.antt =====
-- `main` of services/product/go/cmd/server/main.go, with the HTTP server that it starts, and
-- `StartGRPCServer` of internal/grpc/server.go, up to the server that it serves.
use Prim.Native.String.{◌++◌ as append}
use flash_deals.Base.{
  String, Bool, true, false, ◌&&◌, Option, none, some, List, [], ◌∷◌, Result, ok, err,
  if◌then◌else◌,
}
use flash_deals.Env.{Environment}
use flash_deals.Product.Handler.{ProductHandler}
use flash_deals.Product.Server.{ProductServer}
use flash_deals.Product.Start.{Config, load, database_url, start_handler, start_server}

pub data Method : Type 0 where
  get post patch : Method

-- The methods of the handler that are registered.
pub data Action : Type 0 where
  health create_product list_products get_product update_product get_stock update_stock create_deal
        list_active_deals get_deal start_hotdeal end_hotdeal :
      Action

pub record Route : Type 0 where
  pub method : Method
  pub path : String
  pub action : Action

abbrev route : Method → String → Action → Route
route m p a = record { method = m; path = p; action = a }

unfoldable pub routes : List Route
routes =
    route get "/health" health
    ∷ route post "/products" create_product
    ∷ route get "/products" list_products
    ∷ route get "/products/:id" get_product
    ∷ route patch "/products/:id" update_product
    ∷ route get "/products/:id/stock" get_stock
    ∷ route patch "/products/:id/stock" update_stock
    ∷ route post "/deals" create_deal
    ∷ route get "/deals" list_active_deals
    ∷ route get "/deals/:id" get_deal
    ∷ route post "/products/:id/hotdeal/start" start_hotdeal
    ∷ route post "/products/:id/hotdeal/end" end_hotdeal
    ∷ []

-- The errors of the calls at the start: of the tracer, of `pgxpool.New`, of the ping of Redis, of
-- `net.Listen`, and of `e.Start`, which has none while the server runs.
pub record StartCalls : Type 0 where
  pub tracer : Option String
  pub pool : Option String
  pub ping : Option String
  pub listen : Option String
  pub serve : Option String

abbrev pub succeeded : Option String → Bool
succeeded none = true
succeeded (some e) = false

-- What runs afterwards; `server` is the gRPC server, where it was started.
pub record ProductApp : Type 0 where
  pub handler : ProductHandler
  pub server : Option ProductServer
  pub traced : Bool
  pub database : String
  pub served : List Route
  pub addr : String

unfoldable pub start_grpc_server : Config → Bool → Option String → Result String ProductServer
start_grpc_server cfg redis_up none = ok (start_server cfg redis_up)
start_grpc_server cfg redis_up (some e) = err (append "failed to listen: " e)

-- The goroutine of the gRPC server. Its error is logged.
unfoldable pub serve_grpc : Config → StartCalls → Option ProductServer
unfolding start_grpc_server
serve_grpc cfg calls =
    if cfg.grpc_enabled
    then (elim (start_grpc_server cfg (succeeded calls.ping) calls.listen) [
      | ok s ↦ some s
      | err e ↦ none
    ])
    else none

abbrev pub product_app : Config → StartCalls → ProductApp
product_app cfg calls = record {
  handler = start_handler cfg (succeeded calls.ping);
  server = serve_grpc cfg calls;
  traced = cfg.otel_enabled && succeeded calls.tracer;
  database = database_url cfg;
  served = routes;
  addr = append ":" cfg.app_port;
}

-- `e.Start`: the HTTP server runs, or its error ends the process.
unfoldable pub serve_http : Option String → ProductApp → Result String ProductApp
serve_http none app = ok app
serve_http (some e) app = err (append "Failed to start server: " e)

-- Failures of the tracer and of Redis are warnings; those of the database and of the HTTP server end the
-- process.
unfoldable pub start_product : Environment → StartCalls → Result String ProductApp
unfolding serve_grpc serve_http
start_product env calls = elim calls.pool [
  | some e ↦ err (append "Failed to connect to database: " e)
  | none ↦ serve_http calls.serve (product_app (load env) calls)
]
