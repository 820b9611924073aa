-- ===== src/Order/Lifecycle/Runs.antt =====
-- The order service over time: its requests and the turns of its worker, one after the other, with
-- anything in between that the rest of the world does.
use mathlib.Core.Path.{subst}
use flash_deals.Base.{ℤ, ◌≡◌, sym, Bool, Option, String, List, Uuid, UuidText, Result, ok, err}
use flash_deals.Rpc.{ProductService}
use flash_deals.Order.State.{OrderWorld}
use flash_deals.Order.Service.{OrderItemRequest, ShippingAddress, OrderResponse, Failure}
use flash_deals.Order.Service.Create.{create_order}
use flash_deals.Order.Service.Async.{async_create_order}
use flash_deals.Order.Service.Status.{get_order, confirm_order, cancel_order}
use flash_deals.Order.Service.Status.Read.{Still, Gets, get_order-Gets}
use flash_deals.Order.Service.Lists.{list_orders}
use flash_deals.Order.Service.Lists.Shows.{Shows, list_orders-Shows}
use flash_deals.Order.Worker.{work}
use flash_deals.Order.Lifecycle.{stored, SameTables, Change, kept}
use flash_deals.Order.Lifecycle.Create.{nothing_new, create_order-Change}
use flash_deals.Order.Lifecycle.Async.{async_create_order-Change}
use flash_deals.Order.Lifecycle.Status.{confirm_order-Change, cancel_order-Change}
use flash_deals.Order.Lifecycle.Work.{work-Change}

module _ {R : Type 0} (ids : UuidText) (svc : ProductService R) where
  -- One step. In `outside` the clock, the product service, the connection and the outcomes of the
  -- calls to come are any others; `w.script` and `w.net` are not read before they are used.
  pub data Step (w w' : OrderWorld R) : Type 0 where
    create :
        (user_id : Uuid) (items : List OrderItemRequest) (shipping : Option ShippingAddress)
        → w' ≡ (create_order ids svc user_id items shipping w).1
        → Step w w'
    async_create :
        (has_queue : Bool) (user_id : Uuid) (items : List OrderItemRequest)
        (shipping : Option ShippingAddress)
        → w' ≡ (async_create_order ids svc has_queue user_id items shipping w).1
        → Step w w'
    get : (order_id user_id : Uuid) → w' ≡ (get_order order_id user_id w).1 → Step w w'
    list_all :
        (user_id : Uuid) (page size : ℤ) (status : Option String)
        → w' ≡ (list_orders user_id page size status w).1
        → Step w w'
    confirm : (order_id user_id : Uuid) → w' ≡ (confirm_order order_id user_id w).1 → Step w w'
    cancel :
        (order_id user_id : Uuid) (reason : Option String)
        → w' ≡ (cancel_order ids svc order_id user_id reason w).1
        → Step w w'
    turn : w' ≡ work w → Step w w'
    outside : SameTables (stored w) (stored w') → w'.queue ≡ w.queue → Step w w'

  pub data Runs (w : OrderWorld R) : OrderWorld R → Type 0 where
    here : Runs w w
    next : {w' w'' : OrderWorld R} → Runs w w' → Step w' w'' → Runs w w''

  read_only : (w w' : OrderWorld R) → Still w w' → Change (stored w) (stored w')
  read_only w w' (d, _, q) =
      subst (Change (stored w)) (λ i. record { db = sym d i; queue = sym q i })
        (nothing_new (stored w))

  got :
      (order_id user_id : Uuid) (w : OrderWorld R) (p : Result Failure OrderResponse × OrderWorld R)
      → Gets order_id user_id w p
      → Still w p.1
  got order_id user_id w (ok r, w') (_, _, _, _, s) = s
  got order_id user_id w (err e, w') s = s

  shown :
      (user_id : Uuid) (w : OrderWorld R)
      (p : Result Failure (List OrderResponse × ℤ) × OrderWorld R)
      → Shows user_id w p
      → Still w p.1
  shown user_id w (ok r, w') (_, s) = s
  shown user_id w (err e, w') s = s

  -- Every step makes one change at most.
  pub Step-Change : (w w' : OrderWorld R) → Step w w' → Change (stored w) (stored w')
  Step-Change w w' (create user_id items shipping e) =
      subst (λ v. Change (stored w) (stored v)) (sym e)
        (create_order-Change ids svc user_id shipping w items)
  Step-Change w w' (async_create has_queue user_id items shipping e) =
      subst (λ v. Change (stored w) (stored v)) (sym e)
        (async_create_order-Change ids svc user_id shipping w has_queue items)
  Step-Change w w' (get order_id user_id e) =
      subst (λ v. Change (stored w) (stored v)) (sym e)
        (read_only w (get_order order_id user_id w).1 (
          got order_id user_id w (get_order order_id user_id w)
            (get_order-Gets order_id user_id w)))
  Step-Change w w' (list_all user_id page size status e) =
      subst (λ v. Change (stored w) (stored v)) (sym e)
        (read_only w (list_orders user_id page size status w).1 (
          shown user_id w (list_orders user_id page size status w)
            (list_orders-Shows user_id page size status w)))
  Step-Change w w' (confirm order_id user_id e) =
      subst (λ v. Change (stored w) (stored v)) (sym e) (confirm_order-Change order_id user_id w)
  Step-Change w w' (cancel order_id user_id reason e) =
      subst (λ v. Change (stored w) (stored v)) (sym e)
        (cancel_order-Change order_id user_id w reason ids svc)
  Step-Change w w' (turn e) = subst (λ v. Change (stored w) (stored v)) (sym e) (work-Change w)
  Step-Change w w' (outside same q) = kept same q
