-- ===== src/Order/Service/Status/Cancel.antt =====
-- `CancelOrder`: an own order that is pending or confirmed becomes cancelled and its stock goes back,
-- or nothing changes.
use mathlib.Core.Path.{◌∙◌, subst}
use flash_deals.Base.{
  true, ◌+ℤ◌, ◌≤ℤ◌, max_int32, ◌≡◌, sym, ap, Option, none, String, List, map, Uuid, UuidText, some,
  Result, ok, err, NoLost,
}
use flash_deals.Rpc.{ProductService}
use flash_deals.Rpc.Stock.{StockView, StockLaws}
use flash_deals.Order.State.{OrderWorld, OrdersOrder, OrdersOrderItem}
use flash_deals.Order.Queries.{find_order, items_of, cancelled_row}
use flash_deals.Order.Client.Stock.{IsReady}
use flash_deals.Order.Service.{OrderResponse, Failure, to_order_response}
use flash_deals.Order.Service.Transaction.{Beside}
use flash_deals.Order.Service.Stock.{DecreasedItem, restore_stock}
use flash_deals.Order.Service.Stock.Restore.{
  demand, AllKnown, AllQuantities, Restored, restore_stock-Restored,
}
use flash_deals.Order.Service.Status.{is_cancellable, cancel_rows, cancel_order, to_restore}
use flash_deals.Order.Service.Status.Checks.{with_order}
use flash_deals.Order.Service.Status.CancelRows.{CancelsRows, cancel_rows-CancelsRows}

-- What `cancel_order` has done, by how it ended.
abbrev pub Cancels :
    {R : Type 0}
    → StockView R
    → Uuid
    → Uuid
    → Option String
    → OrderWorld R
    → Result Failure OrderResponse × OrderWorld R
    → Type 0
Cancels v order_id user_id reason w (ok response, w') =
    (o : OrdersOrder) × (find_order order_id w.db ≡ some o)
    × (o.user_id ≡ user_id)
    × (is_cancellable o.status ≡ true)
    × (w'.db ≡ with_order order_id (cancelled_row w.db.clock reason) w.db)
    × (response
        ≡ to_order_response (cancelled_row w.db.clock reason o) (items_of order_id w.db.order_items)
            none)
    × ((j : Uuid)
        → v.stock w'.remote j
          ≡ v.stock w.remote j +ℤ demand (map to_restore (items_of order_id w.db.order_items)) j)
Cancels v order_id user_id reason w (err e, w') = (w'.db ≡ w.db) × (w'.remote ≡ w.remote)

module _ {R : Type 0} (ids : UuidText) (svc : ProductService R) (laws : StockLaws ids svc) where
  open laws use {view}

  -- Over a product service that keeps the stock laws, in a state where they hold (it takes stock or
  -- changes nothing, and never fails to give stock back), over a reliable connection, with no lost answer
  -- of the database, for an order whose items are of known products, have positive quantities, and fit
  -- into the stock: a cancellation that succeeds found a pending or confirmed order of the user, has
  -- written `cancelled` with the reason, and has given back exactly the stock of its items. One that fails
  -- has changed no row and no stock.
  pub cancel_order-Cancels :
      (order_id user_id : Uuid) (reason : Option String) (w : OrderWorld R)
      → IsReady view w
      → NoLost w.script
      → AllKnown view w.remote (map to_restore (items_of order_id w.db.order_items))
      → AllQuantities (map to_restore (items_of order_id w.db.order_items))
      → ((j : Uuid)
          → view.stock w.remote j +ℤ demand (map to_restore (items_of order_id w.db.order_items)) j
            ≤ℤ max_int32)
      → Cancels view order_id user_id reason w (cancel_order ids svc order_id user_id reason w)
  unfolding cancel_order
  cancel_order-Cancels order_id user_id reason w ready n known q room =
      go (cancel_rows order_id user_id reason w)
        (cancel_rows-CancelsRows order_id user_id reason w n)
    where
      start : List DecreasedItem
      start = map to_restore (items_of order_id w.db.order_items)

      back :
          (w' : OrderWorld R)
          → Beside w w'
          → Restored view start w' (restore_stock ids svc start w')
      back w' (r, net, c) =
          restore_stock-Restored ids svc laws start w'
            (record {
              valid = subst view.Valid (sym r) ready.valid;
              no_faults = net ∙ ready.no_faults;
              connected = c ∙ ready.connected;
            })
            (subst (λ s. AllKnown view s start) (sym r) known) q
            (λ j. subst (λ s. view.stock s j +ℤ demand start j ≤ℤ max_int32) (sym r) (room j))

      go :
          (p : Result Failure (OrdersOrder × List OrdersOrderItem) × OrderWorld R)
          → CancelsRows order_id user_id reason w p
          → Cancels view order_id user_id reason w (elim p.0 [
            | ok a ↦ (
              ok (to_order_response a.0 a.1 none),
              restore_stock ids svc (map to_restore a.1) p.1,
            )
            | err e ↦ (err e, p.1)
          ])
      go (ok (order, items), w') (o, found, own, is, d, row, its, b) =
          subst
            (λ l.
              Cancels view order_id user_id reason w
                (ok (to_order_response order l none), restore_stock ids svc (map to_restore l) w'))
            (sym its)
            (
              o,
              found,
              own,
              is,
              (back w' b).kept.0 ∙ d,
              ap (λ r. to_order_response r (items_of order_id w.db.order_items) none) row,
              λ j. (back w' b).at j ∙ ap (λ s. view.stock s j +ℤ demand start j) b.0,
            )
      go (err e, w') (d, b) = (d, b.0)
