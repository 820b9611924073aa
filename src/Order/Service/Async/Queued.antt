-- ===== src/Order/Service/Async/Queued.antt =====
-- `AsyncCreateOrder` over a service that keeps its promises: the stock is taken and the message is in
-- the queue, or nothing of both.
use mathlib.Core.Path.{◌∙◌, subst}
use flash_deals.Base.{
  ℤ, pos, ◌≤ℤ◌, max_int32, int_laws, Bool, true, false, ◌≡◌, refl, sym, ap, Option, List, [], map,
  Uuid, UuidText, Result, ok, err, ◌>>=◌, bind_cases, NoLost,
}
use flash_deals.Rpc.{ProductService}
use flash_deals.Rpc.Stock.{StockLaws}
use flash_deals.Order.State.{OrderWorld, OrderDb}
use flash_deals.Order.Client.Stock.{IsReady}
use flash_deals.Order.Service.{OrderItemRequest, ShippingAddress, Failure}
use flash_deals.Order.Service.Pricing.{OrderItemData, price_items}
use flash_deals.Order.Service.Pricing.Total.{Prices, price_items-Prices}
use flash_deals.Order.Service.Pricing.Reads.{Reads, price_items-Reads}
use flash_deals.Order.Service.Stock.{DecreasedItem, decreased, decrease_items}
use flash_deals.Order.Service.Stock.Decrease.{AllOrdered, TakesAll, Took, decrease_items-TakesAll}
use flash_deals.Order.Service.Async.{with_new_id, enqueue_or_restore, async_create_order}
use flash_deals.Order.Service.Async.Sent.{Queues, sent_or_restored}

module _ {R : Type 0} (ids : UuidText) (svc : ProductService R) (laws : StockLaws ids svc)
    (user_id : Uuid) (items : List OrderItemRequest) (shipping : Option ShippingAddress) where
  open laws use {view}

  -- Steps 3 to 5, after the prices.
  take_and_send :
      (ds : List OrderItemData) (total : ℤ) (w w1 : OrderWorld R)
      → IsReady view w
      → NoLost w.script
      → AllOrdered items
      → Prices (pos 0) items (ok (ds, total))
      → Reads view (with_new_id w) w1
      → Queues view user_id items shipping w (
          (decrease_items ids svc items [] >>= λ taken.
          enqueue_or_restore ids svc w.db.next_id user_id total shipping ds taken)
            w1)
  take_and_send ds total w w1 h n q priced r = go (decrease_items ids svc items [] w1) (
      decrease_items-TakesAll ids svc laws (view.stock w.remote) small items [] w1
        (record {
          ready = r.same.valid;
          known = tt;
          quantities = tt;
          at = λ j. grind (int_laws, r.same.at j);
        })
        q)
    where
      small : (j : Uuid) → view.stock w.remote j ≤ℤ max_int32
      small j = (laws.bounded w.remote j h.valid).1

      go :
          (p : Result Failure (List DecreasedItem) × OrderWorld R)
          → TakesAll view (view.stock w.remote) (map decreased items) w1 p
          → Queues view user_id items shipping w (
              ((λ _. p) >>= λ taken.
              enqueue_or_restore ids svc w.db.next_id user_id total shipping ds taken)
                w1)
      go (ok taken, w2) (all, took, kept) =
          subst
            (λ ts.
              Queues view user_id items shipping w
                (enqueue_or_restore ids svc w.db.next_id user_id total shipping ds ts w2))
            (sym all)
            (sent_or_restored ids svc laws user_id items shipping ds total w w2 small priced
              (subst (λ ts. Took view (view.stock w.remote) ts w2) all took) (kept.0 ∙ r.kept.0)
              (kept.2 ∙ r.kept.2) w2.script (subst NoLost (sym (kept.1 ∙ r.kept.1)) n))
      go (err e, w2) (untouched, kept) = (
        untouched.at,
        kept.2 ∙ r.kept.2,
        (
          ap (λ (db : OrderDb). db.orders) (kept.0 ∙ r.kept.0),
          ap (λ (db : OrderDb). db.order_items) (kept.0 ∙ r.kept.0),
        ),
      )

  -- Over a product service that keeps the stock laws, in a state where they hold (it takes stock or
  -- changes nothing, and never fails to give stock back), over a reliable connection
  -- and with no lost answer of Redis, for positive quantities: an order that is accepted has taken
  -- exactly the stock that its items ask for, and has sent one message with a line for each item; the
  -- answer has their sum, and no row has changed. One that fails has changed no stock, no message and
  -- no row.
  pub async_create_order-Queues :
      (has_queue : Bool) (w : OrderWorld R)
      → IsReady view w
      → NoLost w.script
      → AllOrdered items
      → Queues view user_id items shipping w
          (async_create_order ids svc has_queue user_id items shipping w)
  unfolding async_create_order
  async_create_order-Queues false w h n q = ((λ j. refl), refl, (refl, refl))
  async_create_order-Queues true w h n q =
      bind_cases (Queues view user_id items shipping w) (price_items ids svc items (pos 0))
        (λ a. decrease_items ids svc items [] >>= λ taken.
          enqueue_or_restore ids svc w.db.next_id user_id a.1 shipping a.0 taken)
        (with_new_id w)
        (λ a w1 e.
          take_and_send a.0 a.1 w w1 h n q
            (subst
              (λ (p : Result Failure (List OrderItemData × ℤ) × OrderWorld R).
                Prices (pos 0) items p.0)
              e (price_items-Prices ids svc items (pos 0) (with_new_id w)))
            (reads _ w1 e))
        (λ x w1 e.
          let r = reads _ w1 e in
          (
            r.same.at,
            r.kept.2,
            (
              ap (λ (db : OrderDb). db.orders) r.kept.0,
              ap (λ (db : OrderDb). db.order_items) r.kept.0,
            ),
          ))
    where
      reads :
          (a : Result Failure (List OrderItemData × ℤ)) (w1 : OrderWorld R)
          → price_items ids svc items (pos 0) (with_new_id w) ≡ (a, w1)
          → Reads view (with_new_id w) w1
      reads a w1 e =
          subst
            (λ (p : Result Failure (List OrderItemData × ℤ) × OrderWorld R).
              Reads view (with_new_id w) p.1)
            e
            (price_items-Reads ids svc laws items (pos 0) (with_new_id w)
              (record { valid = h.valid; no_faults = h.no_faults; connected = h.connected }))
