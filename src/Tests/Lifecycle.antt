-- ===== src/Tests/Lifecycle.antt =====
-- A run of the order service: an order is placed, confirmed, and cancelled.
use mathlib.Core.Path.{subst}
use flash_deals.Base.{
  ◌==◌, ==→eq, ◌≤◌, Bool-cases, inl, inr, pos, ◌≡◌, refl, sym, none, some, Uuid, [], ◌∷◌, arith,
  Result, ok, err, Bool, true, false, ◌≡◌,
}
use flash_deals.Product.State.{ProductWorld}
use flash_deals.Order.State.{OrderWorld}
use flash_deals.Order.Queries.{find_order, own_items}
use flash_deals.Order.Service.Create.{create_order}
use flash_deals.Order.Service.Status.{confirm_order, cancel_order}
use flash_deals.Order.Worker.{work}
use flash_deals.Order.Lifecycle.{stored}
use flash_deals.Order.Lifecycle.Valid.{IsValid, Balanced}
use flash_deals.Order.Lifecycle.Runs.{Runs, here, next, create, confirm, cancel, turn}
use flash_deals.Order.Lifecycle.Invariant.{Runs-IsValid}
use flash_deals.Order.Lifecycle.Follows.{Lives, Runs-Follows}
use flash_deals.Rpc.{ProductService}
use flash_deals.Product.Server.{product_service}
use flash_deals.Product.Server.View.{db_server}
use flash_deals.Tests.World.{unary_ids, hotdeals, old_order, start}
use flash_deals.Product.Server.Promises.{server_laws}
use flash_deals.Order.Service.Undo.{CanUndo, create_order-cancel_order}
use flash_deals.Tests.Orders.{two_items, two_items-AllOrdered, start-IsReady}

abbrev pub svc : ProductService ProductWorld
svc = product_service unary_ids (db_server (some hotdeals))

old_Balanced : (id : Uuid) → Balanced (find_order id start.db) (own_items id start.db.order_items)
unfolding flash_deals.Base.mul32 flash_deals.Base.add32
old_Balanced id = elim (Bool-cases (20 == id)) [
  | inl e ↦
      subst (λ (i : Uuid). Balanced (find_order i start.db) (own_items i start.db.order_items))
        (==→eq 20 id e) ((refl, tt), refl)
  | inr e ↦ rw e refl
]

pub start-IsValid : IsValid (stored start)
start-IsValid = record {
  fresh = λ id h. ground arith;
  distinct = (refl, tt);
  balanced = old_Balanced;
  waiting = tt;
}

abbrev placed : OrderWorld ProductWorld
placed = (create_order unary_ids svc 7 two_items none start).1

abbrev confirmed : OrderWorld ProductWorld
confirmed = (confirm_order 20 7 placed).1

abbrev cancelled : OrderWorld ProductWorld
cancelled = (cancel_order unary_ids svc 20 7 none confirmed).1

abbrev run : Runs unary_ids svc start (work cancelled)
run =
    next
      (next (next (next here (create 7 two_items none refl)) (confirm 20 7 refl))
        (cancel 20 7 none refl))
      (turn refl)

Runs-IsValid_example : IsValid (stored (work cancelled))
Runs-IsValid_example = Runs-IsValid unary_ids svc start (work cancelled) start-IsValid run

Runs-Follows_example : Lives 20 old_order (stored start) (stored (work cancelled))
Runs-Follows_example =
    Runs-Follows unary_ids svc start (work cancelled) 20 old_order start-IsValid refl run

-- The order is cancelled at once; Tests/Placed shows that it is placed.
create_order-cancel_order_example :
    CanUndo unary_ids svc
      (server_laws unary_ids (some hotdeals))
      7
      two_items
      none
      (some "too late")
      start
      (create_order unary_ids svc 7 two_items none start)
unfolding server_laws
create_order-cancel_order_example =
    create_order-cancel_order unary_ids svc (server_laws unary_ids (some hotdeals)) 7 two_items none
      (some "too late") start start-IsReady start-IsValid refl two_items-AllOrdered
