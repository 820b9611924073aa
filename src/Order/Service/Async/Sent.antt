-- ===== src/Order/Service/Async/Sent.antt =====
-- The last step of `AsyncCreateOrder`: the message is sent, or the stock is given back.
use mathlib.Core.Path.{◌∙◌}
use flash_deals.Base.{
  ℤ, pos, ◌≤ℤ◌, max_int32, ◌≡◌, refl, ap, Option, List, [], ◌∷◌, map, Uuid, UuidText, Result, ok,
  err, NoLost, Outcome, done, refused, lost,
}
use flash_deals.Rpc.{ProductService}
use flash_deals.Rpc.Stock.{StockView, StockLaws}
use flash_deals.Order.State.{OrderWorld, OrderDb, Error}
use flash_deals.Order.Queue.{enqueue}
use flash_deals.Order.Service.{OrderItemRequest, ShippingAddress, OrderResponse, Failure}
use flash_deals.Order.Service.Pricing.{OrderItemData}
use flash_deals.Order.Service.Pricing.Total.{Prices, AllPriced, add_subtotals, request_of}
use flash_deals.Order.Service.Stock.{decreased}
use flash_deals.Order.Service.Stock.Decrease.{Took}
use flash_deals.Order.Service.Create.Taken.{Sold, Took-Beside, restored}
use flash_deals.Order.Service.Async.{
  order_request, queued_response, with_new_id, enqueue_or_restore,
}

-- No row is added, and none is changed.
abbrev pub SameRows : {R : Type 0} → OrderWorld R → OrderWorld R → Type 0
SameRows w w' = (w'.db.orders ≡ w.db.orders) × (w'.db.order_items ≡ w.db.order_items)

-- One new message, with the lines of the request at their prices, and their sum in the answer.
pub record Sent {R : Type 0} (user_id : Uuid) (items : List OrderItemRequest)
    (shipping : Option ShippingAddress) (response : OrderResponse) (w w' : OrderWorld R)
    : Type 0 where
  pub lines : List OrderItemData
  pub for_items : map request_of lines ≡ items
  pub priced : AllPriced lines
  pub sent : w'.queue ≡ order_request w.db.next_id user_id lines shipping w.db.clock ∷ w.queue
  pub answered :
      response
      ≡ queued_response
          (order_request w.db.next_id user_id lines shipping w.db.clock)
          (add_subtotals (pos 0) lines)
          shipping

-- What `async_create_order` has done, by how it ended.
abbrev pub Queues :
    {R : Type 0}
    → StockView R
    → Uuid
    → List OrderItemRequest
    → Option ShippingAddress
    → OrderWorld R
    → Result Failure OrderResponse × OrderWorld R
    → Type 0
Queues v user_id items shipping w (ok response, w') =
    Sold v items w w' × Sent user_id items shipping response w w' × SameRows w w'
Queues v user_id items shipping w (err e, w') =
    ((j : Uuid) → v.stock w'.remote j ≡ v.stock w.remote j) × (w'.queue ≡ w.queue) × SameRows w w'

module _ {R : Type 0} (ids : UuidText) (svc : ProductService R) (laws : StockLaws ids svc)
    (user_id : Uuid) (items : List OrderItemRequest) (shipping : Option ShippingAddress) where
  open laws use {view}

  -- The message, or the stock given back.
  pub sent_or_restored :
      (ds : List OrderItemData) (total : ℤ) (w w2 : OrderWorld R)
      → ((j : Uuid) → view.stock w.remote j ≤ℤ max_int32)
      → Prices (pos 0) items (ok (ds, total))
      → Took view (view.stock w.remote) (map decreased items) w2
      → w2.db ≡ (with_new_id w).db
      → w2.queue ≡ w.queue
      → (s : List (Outcome Error)) → NoLost s
      → Queues view user_id items shipping w (
          enqueue_or_restore ids svc w.db.next_id user_id total shipping ds
            (map decreased items)
            (record w2 { script = s }))
  unfolding enqueue_or_restore enqueue
  sent_or_restored ds total w w2 small (same, priced, sum) t d k = go
    where
      told :
          (s : List (Outcome Error))
          → Queues view user_id items shipping w (
            ok (
                queued_response
                  (order_request w.db.next_id user_id ds shipping w2.db.clock)
                  total
                  shipping),
            record w2 {
              script = s;
              queue = order_request w.db.next_id user_id ds shipping w2.db.clock ∷ w2.queue;
            },
          )
      told s = (
        (
          t.at,
          record {
            valid = t.ready.valid;
            no_faults = t.ready.no_faults;
            connected = t.ready.connected;
          },
          t.known,
          t.quantities,
        ),
        record {
          lines = ds;
          for_items = same;
          priced = priced;
          sent =
              ap
                (λ (db : OrderDb).
                  order_request w.db.next_id user_id ds shipping db.clock ∷ w2.queue)
                d
              ∙ ap (λ l. order_request w.db.next_id user_id ds shipping w.db.clock ∷ l) k;
          answered =
              ap
                (λ (db : OrderDb).
                  queued_response (order_request w.db.next_id user_id ds shipping db.clock) total
                    shipping)
                d
              ∙ ap
                  (λ n.
                    queued_response (order_request w.db.next_id user_id ds shipping w.db.clock) n
                      shipping)
                  sum;
        },
        (ap (λ (db : OrderDb). db.orders) d, ap (λ (db : OrderDb). db.order_items) d),
      )

      go :
          (s : List (Outcome Error))
          → NoLost s
          → Queues view user_id items shipping w (
              enqueue_or_restore ids svc w.db.next_id user_id total shipping ds
                (map decreased items)
                (record w2 { script = s }))
      go [] l = told []
      go (done ∷ os) l = told os
      go (refused e ∷ os) l =
          let w3 : OrderWorld R = record w2 { script = os } in
          let (back, kept) =
            restored ids svc laws (view.stock w.remote) (map decreased items) w3 small (
              Took-Beside ids svc laws (view.stock w.remote) (map decreased items) w2 w3 t
                (refl, refl, refl)) in
          (
            back,
            kept.2 ∙ k,
            (
              ap (λ (db : OrderDb). db.orders) (kept.0 ∙ d),
              ap (λ (db : OrderDb). db.order_items) (kept.0 ∙ d),
            ),
          )
      go (lost e ∷ os) l = absurd l
