-- ===== src/Order/Lifecycle/Async.antt =====
-- `AsyncCreateOrder` makes one change at most, whatever the calls do: a message more.
use flash_deals.Base.{
  ℤ, pos, refl, Bool, true, false, Option, List, [], ◌∷◌, Uuid, UuidText, Result, ok, err, ◌>>=◌,
  bind_cases, Outcome, done, refused, lost, next, rest, under, arith,
}
use flash_deals.Rpc.{ProductService}
use flash_deals.Order.State.{OrderWorld, OrderRequest, Error}
use flash_deals.Order.Queue.{enqueue}
use flash_deals.Order.Client.Stock.{Kept}
use flash_deals.Order.Service.{
  OrderItemRequest, ShippingAddress, OrderResponse, Failure, service_error,
}
use flash_deals.Order.Service.Pricing.{OrderItemData, price_items}
use flash_deals.Order.Service.Stock.{DecreasedItem, decrease_items, restore_stock}
use flash_deals.Order.Service.Async.{
  order_request, queued_response, with_new_id, enqueue_or_restore, async_create_order,
}
use flash_deals.Order.Lifecycle.{stored, Change, kept, queued}
use flash_deals.Order.Lifecycle.Calls.{restore_stock-Kept}
use flash_deals.Order.Lifecycle.Create.{Change-Kept, nothing_new, after_prices, after_decrease}

module _ {R : Type 0} (ids : UuidText) (svc : ProductService R) (user_id : Uuid)
    (shipping : Option ShippingAddress) (w : OrderWorld R) where
  -- A message that Redis has, also where its answer is lost and the stock goes back.
  sent :
      (total : ℤ) (ds : List OrderItemData) (taken : List DecreasedItem) (w2 : OrderWorld R)
      → Kept (with_new_id w) w2
      → Change
          (stored w)
          (stored (enqueue_or_restore ids svc w.db.next_id user_id total shipping ds taken w2).1)
  unfolding enqueue_or_restore enqueue
  sent total ds taken w2 (d, _, q) = go (next w2.script)
    where
      req : OrderRequest
      req = order_request w.db.next_id user_id ds shipping w2.db.clock

      more :
          (s : List (Outcome Error))
          → Change (stored w) (stored (record w2 { script = s; queue = req ∷ w2.queue }))
      more s =
          queued req refl (ground (arith, d), ground (arith, d), ground (arith, d))
            (ground (arith, d)) (ground (arith, q))

      same : (s : List (Outcome Error)) → Change (stored w) (stored (record w2 { script = s }))
      same s = kept (ground (arith, d), ground (arith, d), ground (arith, d)) q

      back :
          (v : OrderWorld R)
          → Change (stored w) (stored v)
          → Change (stored w) (stored (restore_stock ids svc taken v))
      back v c =
          Change-Kept (stored w) v (restore_stock ids svc taken v) c
            (restore_stock-Kept ids svc v taken v (refl, refl, refl))

      go :
          (o : Outcome Error)
          → (let p : Result Error (Unit {0}) × OrderWorld R =
                under o
                  (λ v. (ok tt, record v { queue = req ∷ v.queue }))
                  (record w2 { script = rest w2.script }) in
              let a : Result Failure OrderResponse × OrderWorld R = elim p.0 [
                | ok _ ↦ (ok (queued_response req total shipping), p.1)
                | err _ ↦ (
                  err (service_error "QUEUE_FAILED" "주문 큐 등록에 실패했습니다." 500),
                  restore_stock ids svc taken p.1,
                )
              ] in
              Change (stored w) (stored a.1))
      go done = more (rest w2.script)
      go (refused e) = back (record w2 { script = rest w2.script }) (same (rest w2.script))
      go (lost e) =
          back (record w2 { script = rest w2.script; queue = req ∷ w2.queue })
            (more (rest w2.script))

  -- `AsyncCreateOrder`, whatever its calls do.
  pub async_create_order-Change :
      (has_queue : Bool) (items : List OrderItemRequest)
      → Change (stored w) (stored (async_create_order ids svc has_queue user_id items shipping w).1)
  unfolding async_create_order
  async_create_order-Change false items = nothing_new (stored w)
  async_create_order-Change true items =
      let Q : Result Failure OrderResponse × OrderWorld R → Type 0 =
        λ p. Change (stored w) (stored p.1) in
      let drawn : Change (stored w) (stored (with_new_id w)) =
        kept (refl, refl, omega arith) refl in
      bind_cases Q (price_items ids svc items (pos 0))
        (λ a. decrease_items ids svc items [] >>= λ taken.
          enqueue_or_restore ids svc w.db.next_id user_id a.1 shipping a.0 taken)
        (with_new_id w)
        (λ a w1 e.
          bind_cases Q (decrease_items ids svc items [])
            (λ taken. enqueue_or_restore ids svc w.db.next_id user_id a.1 shipping a.0 taken) w1
            (λ taken w2 e2. sent a.1 a.0 taken w2 (
              after_decrease ids svc items (with_new_id w) w1 w2 (ok taken)
                (after_prices ids svc items (with_new_id w) w1 (ok a) e) e2))
            (λ x w2 e2. Change-Kept (stored w) (with_new_id w) w2 drawn (
              after_decrease ids svc items (with_new_id w) w1 w2 (err x)
                (after_prices ids svc items (with_new_id w) w1 (ok a) e) e2)))
        (λ x w1 e.
          Change-Kept (stored w) (with_new_id w) w1 drawn
            (after_prices ids svc items (with_new_id w) w1 (err x) e))
