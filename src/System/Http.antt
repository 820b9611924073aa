-- ===== src/System/Http.antt =====
-- An order that comes in over HTTP, with the product service behind it.
use flash_deals.Base.{
  String, ◌≡◌, refl, Option, List, Uuid, UuidText, Result, ok, err, NoLost, Bool, true, false,
}
use flash_deals.Http.{Response, refuse, status_accepted, status_bad_request}
use flash_deals.Product.State.{ProductWorld}
use flash_deals.Product.Hotdeal.{HotdealRepository}
use flash_deals.Product.Server.{product_service}
use flash_deals.Product.Server.Cache.Promises.{server_over, view_over, laws_over}
use flash_deals.Order.State.{OrderWorld}
use flash_deals.Rpc.Stock.{StockView}
use flash_deals.Order.Client.Stock.{IsReady}
use flash_deals.Order.Service
use flash_deals.Order.Service.{OrderItemRequest, ShippingAddress, Failure, service, raw, panicked}
use flash_deals.Order.Service.Stock.Decrease.{AllOrdered}
use flash_deals.Order.Service.Async.Sent.{Queues, SameRows}
use flash_deals.Order.Service.Async.Queued.{async_create_order-Queues}
use flash_deals.Order.Service.Create.Atomic.{Places}
use flash_deals.Order.Handler.{
  Refusal, refused, OrderResponse, answer, to_order_response, ErrorResponse,
}
use flash_deals.Order.Handler.Cases.{with_user_cases}
use flash_deals.Order.Handler.Create.{
  OrderHandler, CreateOrderRequest, decode, address_of, run_create, answer_create,
  create_order_handler,
}
use flash_deals.System.{create_order-server}

-- What the way that is switched on has done: through the queue, or at once.
abbrev pub Accepts :
    {R : Type 0}
    → Bool
    → StockView R
    → Uuid
    → List OrderItemRequest
    → Option ShippingAddress
    → OrderWorld R
    → Result Failure Service.OrderResponse × OrderWorld R
    → Type 0
Accepts true v user_id items shipping w p = Queues v user_id items shipping w p
Accepts false v user_id items shipping w p = Places v user_id items shipping w p

-- Nothing of an order is left.
abbrev pub Keeps : {R : Type 0} → Bool → StockView R → OrderWorld R → OrderWorld R → Type 0
Keeps true v w w' =
    ((j : Uuid) → v.stock w'.remote j ≡ v.stock w.remote j) × (w'.queue ≡ w.queue) × SameRows w w'
Keeps false v w w' = ((j : Uuid) → v.stock w'.remote j ≡ v.stock w.remote j) × (w'.db ≡ w.db)

module _ (ids : UuidText) (cached : Bool) (hot : Option HotdealRepository) (user_id_str : String)
    (body : Option CreateOrderRequest) (w : OrderWorld ProductWorld) (async : Bool) where
  -- What an answer to the request means.
  abbrev pub HttpPlaces : Response Refusal OrderResponse × OrderWorld ProductWorld → Type 0
  HttpPlaces q = elim q.0.body [
    | ok answered ↦
        (q.0.status ≡ status_accepted)
        × ((user_id : Uuid) × (items : List OrderItemRequest) × (response : Service.OrderResponse)
            × (ids.parse user_id_str ≡ ok user_id)
            × (decode ids body ≡ ok items)
            × (answered ≡ to_order_response ids response)
            × Accepts async (view_over cached hot) user_id items (address_of ids body) w
                (ok response, q.1))
    | err e ↦ Keeps async (view_over cached hot) w q.1
  ]

unchanged : {R : Type 0} (async : Bool) (v : StockView R) (w : OrderWorld R) → Keeps async v w w
unchanged true v w = ((λ j. refl), refl, (refl, refl))
unchanged false v w = ((λ j. refl), refl)

failed :
    {R : Type 0} (async : Bool) (v : StockView R) (user_id : Uuid) (items : List OrderItemRequest)
    (shipping : Option ShippingAddress) (w w' : OrderWorld R) (e : Failure)
    → Accepts async v user_id items shipping w (err e, w')
    → Keeps async v w w'
failed true v user_id items shipping w w' e a = a
failed false v user_id items shipping w w' e a = a

module _ (ids : UuidText) (cached : Bool) (hot : Option HotdealRepository)
    (w : OrderWorld ProductWorld) (ready : IsReady (view_over cached hot) w)
    (n : NoLost w.script) where
  run_create-Accepts :
      (async has_queue : Bool) (user_id : Uuid) (items : List OrderItemRequest)
      (shipping : Option ShippingAddress)
      → AllOrdered items
      → Accepts async (view_over cached hot) user_id items shipping w (
          run_create ids
            (product_service ids (server_over cached hot))
            (record { async_enabled = async; has_queue = has_queue })
            user_id
            items
            shipping
            w)
  unfolding run_create laws_over
  run_create-Accepts true has_queue user_id items shipping q =
      async_create_order-Queues ids (product_service ids (server_over cached hot))
        (laws_over ids hot cached) user_id items shipping has_queue w ready n q
  run_create-Accepts false has_queue user_id items shipping q =
      create_order-server ids cached hot user_id w ready n items shipping q

  module _ (user_id_str : String) (body : Option CreateOrderRequest) (h : OrderHandler)
      (ordered : (items : List OrderItemRequest)
        → decode ids body ≡ ok items
        → AllOrdered items) where
    Result-HttpPlaces :
        (user_id : Uuid) (items : List OrderItemRequest)
        (p : Result Failure Service.OrderResponse × OrderWorld ProductWorld)
        → ids.parse user_id_str ≡ ok user_id
        → decode ids body ≡ ok items
        → Accepts h.async_enabled (view_over cached hot) user_id items (address_of ids body) w p
        → HttpPlaces ids cached hot user_id_str body w h.async_enabled
            (answer status_accepted (to_order_response ids) p.0, p.1)
    Result-HttpPlaces user_id items (ok response, w') parsed decoded a =
        (refl, (user_id, items, response, parsed, decoded, refl, a))
    Result-HttpPlaces user_id items (err (service e), w') parsed decoded a =
        failed h.async_enabled _ user_id items (address_of ids body) w w' (service e) a
    Result-HttpPlaces user_id items (err (raw e), w') parsed decoded a =
        failed h.async_enabled _ user_id items (address_of ids body) w w' (raw e) a
    Result-HttpPlaces user_id items (err (panicked t), w') parsed decoded a =
        failed h.async_enabled _ user_id items (address_of ids body) w w' (panicked t) a

    answer_create-HttpPlaces :
        (user_id : Uuid)
        → ids.parse user_id_str ≡ ok user_id
        → HttpPlaces ids cached hot user_id_str body w h.async_enabled
            (answer_create ids (product_service ids (server_over cached hot)) h body user_id w)
    unfolding answer_create
    answer_create-HttpPlaces user_id parsed = go (decode ids body) refl
      where
        run : List OrderItemRequest → Result Failure Service.OrderResponse × OrderWorld ProductWorld
        run items =
            run_create ids (product_service ids (server_over cached hot)) h user_id items
              (address_of ids body) w

        go :
            (r : Result ErrorResponse (List OrderItemRequest))
            → decode ids body ≡ r
            → HttpPlaces ids cached hot user_id_str body w h.async_enabled (elim r [
              | err e ↦ (refuse status_bad_request (refused e), w)
              | ok items ↦
                  (answer status_accepted (to_order_response ids) (run items).0, (run items).1)
            ])
        go (err e) d = unchanged h.async_enabled (view_over cached hot) w
        go (ok items) d = Result-HttpPlaces user_id items (run items) parsed d (
            run_create-Accepts h.async_enabled h.has_queue user_id items (address_of ids body)
              (ordered items d))

    -- Over a reliable connection, with no lost answer of the order database or of the orders' Redis, where
    -- no call of the product service fails and its cached products, if it caches them, are those of the
    -- table, and for a body whose quantities, if it is a request at all, are positive: an answer of
    -- `CreateOrder` with an order is 202, the header and the body were well formed, and the order is
    -- placed, its stock taken and its rows written, or, where orders are taken by the queue, its message is
    -- sent in place of the rows; every other answer leaves all shown stocks and all rows of the order
    -- service as they were, and, where orders are taken by the queue, its messages.
    pub create_order_handler-HttpPlaces :
        HttpPlaces ids cached hot user_id_str body w h.async_enabled (
          create_order_handler ids
            (product_service ids (server_over cached hot))
            h
            user_id_str
            body
            w)
    unfolding create_order_handler
    create_order_handler-HttpPlaces =
        with_user_cases ids (HttpPlaces ids cached hot user_id_str body w h.async_enabled)
          user_id_str (answer_create ids (product_service ids (server_over cached hot)) h body) w
          (λ code error message. unchanged h.async_enabled (view_over cached hot) w)
          answer_create-HttpPlaces
