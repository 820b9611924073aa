-- ===== src/Order/Start/Main.antt =====
-- `main` of services/order/go/cmd/server/main.go, with the HTTP server that it starts.
use Prim.Native.String.{◌++◌ as append}
use flash_deals.Base.{
  String, Bool, true, false, ◌&&◌, Option, none, some, List, [], ◌∷◌, Result, ok, err,
}
use flash_deals.Env.{Environment}
use flash_deals.Order.Client.Init.{ClientState, no_client, init_client}
use flash_deals.Order.Handler.Create.{
  OrderHandler, new_order_handler, set_async_enabled, set_order_queue,
}
use flash_deals.Order.Start.{Config, load, database_url}

pub data Method : Type 0 where
  get post : Method

-- The methods of the handler that are registered.
pub data Action : Type 0 where
  health list_orders create_order get_order confirm_order cancel_order : Action

pub record Route : Type 0 where
  pub method : Method
  pub path : String
  pub action : Action

abbrev route : Method → String → Action → Route
route m p a = record { method = m; path = p; action = a }

unfoldable pub routes : List Route
routes =
    route get "/health" health
    ∷ route get "/orders/health" health
    ∷ route get "/orders" list_orders
    ∷ route post "/orders" create_order
    ∷ route get "/orders/:id" get_order
    ∷ route post "/orders/:id/confirm" confirm_order
    ∷ route post "/orders/:id/cancel" cancel_order
    ∷ []

-- The errors of the calls at the start: of the tracer, of `pgxpool.New`, of `grpc.NewClient`, of the ping
-- of Redis, and of `e.Start`, which has none while the server runs.
pub record StartCalls : Type 0 where
  pub tracer : Option String
  pub pool : Option String
  pub dial : Option String
  pub ping : Option String
  pub serve : Option String

abbrev pub succeeded : Option String → Bool
succeeded none = true
succeeded (some e) = false

-- What runs afterwards. `worker` says whether the order worker was started.
pub record OrderApp : Type 0 where
  pub handler : OrderHandler
  pub client : ClientState
  pub worker : Bool
  pub traced : Bool
  pub database : String
  pub served : List Route
  pub addr : String

-- What is built before the queue.
unfoldable pub order_app : Config → StartCalls → ClientState → OrderApp
unfolding new_order_handler
order_app cfg calls client = record {
  handler = new_order_handler;
  client = client;
  worker = false;
  traced = cfg.otel_enabled && succeeded calls.tracer;
  database = database_url cfg;
  served = routes;
  addr = append ":" cfg.app_port;
}

-- The queue of orders is set up if it is switched on.
unfoldable pub start_queue : Bool → Option String → OrderApp → Result String OrderApp
unfolding set_order_queue set_async_enabled
start_queue false ping app = ok app
start_queue true none app =
    ok
      (record app { handler = set_async_enabled true (set_order_queue app.handler); worker = true })
start_queue true (some e) app = err (append "Failed to connect to Redis: " e)

-- `e.Start`: the HTTP server runs, or its error ends the process.
unfoldable pub serve_http : Option String → OrderApp → Result String OrderApp
serve_http none app = ok app
serve_http (some e) app = err (append "Failed to start server: " e)

-- A failure of the tracer is a warning; the others end the process, with this message.
unfoldable pub start_order : Environment → StartCalls → Result String OrderApp
unfolding init_client order_app start_queue serve_http
start_order env calls =
    let cfg : Config = load env in
    elim calls.pool [
      | some e ↦ err (append "Failed to connect to database: " e)
      | none ↦
          let (dialled, client) = init_client calls.dial no_client in
          elim dialled [
            | some e ↦ err (append "Failed to initialize product client: " e)
            | none ↦
                elim (start_queue cfg.async_order_enabled calls.ping (order_app cfg calls client)) [
                  | err e ↦ err e
                  | ok app ↦ serve_http calls.serve app
                ]
          ]
    ]
