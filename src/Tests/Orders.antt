-- ===== src/Tests/Orders.antt =====
-- Orders that succeed, and orders that fail half way.
use flash_deals.Base.{
  true, List, int_laws, ℤ, pos, ◌≡◌, refl, none, some, [], ◌∷◌, arith, Uuid, sym,
}
use mathlib.Core.Path.{subst}
use flash_deals.Product.Server.View.{IsCalm, IsKnown, server_view}
use flash_deals.Order.State.{OrderWorld}
use flash_deals.Order.Client.Stock.{IsReady}
use flash_deals.Order.Service.Create.{create_order}
use flash_deals.Order.Service.Create.Atomic.{Places}
use flash_deals.Product.Server.{product_service}
use flash_deals.Product.Server.View.{db_server}
use flash_deals.Product.Hotdeal.{is_enabled, stock_at}
use flash_deals.Rpc.{ProductService}
use flash_deals.Rpc.Stock.{StockLaws}
use flash_deals.Product.State.{ProductWorld}
use flash_deals.Product.Server.Promises.{server_laws}
use flash_deals.Order.Service.{OrderItemRequest}
use flash_deals.Order.Service.Create.Atomic.{create_order-Places}
use flash_deals.Order.Service.Stock.{DecreasedItem, decreased, decrease_items}
use flash_deals.Order.Service.Stock.Decrease.{TakesAll, AllOrdered, decrease_items-TakesAll}
use flash_deals.System.{create_order-server}
use flash_deals.Product.Server.Cache.Promises.{server_over, view_over}
use flash_deals.Tests.Cache.{warm, warm-IsCoherent}
use flash_deals.Tests.World.{lamp, chair, unary_ids, shop, hotdeals, start, request}

-- Redis has the chair only.
redis_key : (id : Uuid) (n : ℤ) → stock_at id shop.redis ≡ some n → id ≡ 2
redis_key id n h = ground (arith, h)

chair-IsKnown : IsKnown 2 shop
chair-IsKnown = (chair, refl)

pub shop-IsCalm : IsCalm (some hotdeals) shop
unfolding is_enabled
shop-IsCalm = record {
  no_faults = refl;
  no_cancels = refl;
  products = λ id p h. ground arith;
  stocks = λ id n h. (
    (ground (arith, h), ground (arith, h)),
    subst (λ j. IsKnown j shop) (sym (redis_key id n h)) chair-IsKnown,
  );
}

pub start-IsReady : IsReady (server_view (some hotdeals)) start
start-IsReady = record { valid = shop-IsCalm; no_faults = refl; connected = refl }

-- The lamp is cached.
abbrev pub warm_start : OrderWorld ProductWorld
warm_start = record start { remote = warm }

pub warm_start-IsReady : IsReady (view_over true (some hotdeals)) warm_start
warm_start-IsReady = record {
  valid = (
    record {
      no_faults = refl;
      no_cancels = refl;
      products = shop-IsCalm.products;
      stocks = shop-IsCalm.stocks;
    },
    warm-IsCoherent,
  );
  no_faults = refl;
  connected = refl;
}

-- Two lamps and a chair: one stock in the table, one in Redis.
create_order-server_example :
    Places
      (view_over true (some hotdeals))
      7
      (request 1 (pos 2) ∷ request 2 (pos 1) ∷ [])
      none
      warm_start
      (create_order unary_ids
        (product_service unary_ids (server_over true (some hotdeals)))
        7
        (request 1 (pos 2) ∷ request 2 (pos 1) ∷ [])
        none
        warm_start)
create_order-server_example =
    create_order-server unary_ids true (some hotdeals) 7 warm_start warm_start-IsReady tt
      (request 1 (pos 2) ∷ request 2 (pos 1) ∷ []) none
      ((ground arith, ground arith), ((ground arith, ground arith), tt))

abbrev laws : StockLaws unary_ids (product_service unary_ids (db_server (some hotdeals)))
laws = server_laws unary_ids (some hotdeals)

abbrev svc : ProductService ProductWorld
svc = product_service unary_ids (db_server (some hotdeals))

abbrev pub two_items : List OrderItemRequest
two_items = request 1 (pos 2) ∷ request 2 (pos 1) ∷ []

pub two_items-AllOrdered : AllOrdered two_items
two_items-AllOrdered = ((ground arith, ground arith), ((ground arith, ground arith), tt))

create_order-Places_example :
    Places
      (server_view (some hotdeals))
      7
      two_items
      none
      start
      (create_order unary_ids svc 7 two_items none start)
unfolding server_laws
create_order-Places_example =
    create_order-Places unary_ids svc laws 7 two_items none start start-IsReady tt
      two_items-AllOrdered

abbrev taken : List DecreasedItem
taken = decreased (request 1 (pos 2)) ∷ decreased (request 2 (pos 1)) ∷ []

pub lamp-IsKnown : IsKnown 1 shop
lamp-IsKnown = (lamp, refl)

decrease_items-TakesAll_example :
    TakesAll
      (server_view (some hotdeals))
      ((server_view (some hotdeals)).stock shop)
      taken
      start
      (decrease_items unary_ids svc two_items [] start)
unfolding server_laws
decrease_items-TakesAll_example =
    decrease_items-TakesAll unary_ids svc laws ((server_view (some hotdeals)).stock shop)
      (λ j. (laws.bounded shop j shop-IsCalm).1) two_items [] start
      (record { ready = start-IsReady; known = tt; quantities = tt; at = λ j. omega int_laws })
      two_items-AllOrdered
