-- ===== src/Order/Service/Undo/Calm.antt =====
-- Where no call of the database fails, `CreateOrder` leaves none to fail, and `CancelOrder` of an own
-- order that is pending or confirmed succeeds.
use mathlib.Core.Path.{◌∙◌}
use Prim.Native.String.{◌++◌ as append}
use flash_deals.Base.{
  ap, ==_self, ℤ, pos, ◌≡◌, refl, true, none, some, Option, String, List, [], map, Uuid, UuidText,
  Result, ok, err, ◌>>=◌, ◌>>◌, pure, bind_keeps, arith,
}
use flash_deals.Rpc.{ProductService}
use flash_deals.Order.State.{
  OrderWorld, OrdersOrder, OrdersOrderItem, Error, error_text, begin_tx, in_tx, commit_tx,
}
use flash_deals.Order.Queries
use flash_deals.Order.Queries.{CreateOrderParams, find_order, items_of, cancelled_row}
use flash_deals.Order.Service.{
  OrderItemRequest, ShippingAddress, OrderResponse, Failure, to_order_response,
}
use flash_deals.Order.Service.Transaction.{or_fail}
use flash_deals.Order.Service.Pricing.{OrderItemData, price_items}
use flash_deals.Order.Service.Stock.{DecreasedItem, decrease_items, restore_stock}
use flash_deals.Order.Service.Create.{
  create_failed, create_params, insert_items, insert_order, insert_or_restore, create_order,
}
use flash_deals.Order.Service.Status.{is_cancellable, cancel_rows, cancel_order, to_restore}
use flash_deals.Order.Service.Status.Checks.{with_order}
use flash_deals.Order.Worker.Drains.{Waits, in_tx-Waits, insert_items-Waits}
use flash_deals.Order.Lifecycle.Calls.{price_items-Kept, decrease_items-Kept, restore_stock-Kept}

-- No call of the database is going to fail.
abbrev pub NoFailure : {R : Type 0} → OrderWorld R → Type 0
NoFailure w = w.script ≡ []

module _ {R : Type 0} where
  insert_order-Waits :
      (params : CreateOrderParams) (ds : List OrderItemData) (w : OrderWorld R)
      → NoFailure w
      → NoFailure (insert_order params ds w).1
  unfolding insert_order
  insert_order-Waits params ds w calm =
      let q = w.queue in
      let f : Error → Failure = λ e. create_failed (append "주문 생성에 실패했습니다: " (error_text e)) in
      let g : Error → Failure = λ _. create_failed "주문 아이템 생성에 실패했습니다." in
      let k : Error → Failure = λ _. create_failed "주문 커밋에 실패했습니다." in
      let start : Error → Failure = λ _. create_failed "주문 생성에 실패했습니다." in
      (bind_keeps (Waits q) (or_fail start begin_tx)
        (λ tx. or_fail f (in_tx (Queries.create_order params) tx) >>= λ a.
          or_fail g (insert_items a.0.id ds a.1) >>= λ b.
          or_fail k (commit_tx b.1) >> pure (a.0, b.0))
        w (ground (arith, calm), ground (arith, calm))
        (λ tx w1 h1.
          bind_keeps (Waits q) (or_fail f (in_tx (Queries.create_order params) tx))
            (λ a. or_fail g (insert_items a.0.id ds a.1) >>= λ b.
              or_fail k (commit_tx b.1) >> pure (a.0, b.0))
            w1 (in_tx-Waits q (Queries.create_order params) tx w1 h1)
            (λ a w2 h2.
              bind_keeps (Waits q) (or_fail g (insert_items a.0.id ds a.1))
                (λ b. or_fail k (commit_tx b.1) >> pure (a.0, b.0)) w2
                (insert_items-Waits q a.0.id ds a.1 w2 h2)
                (λ b w3 h3.
                  bind_keeps (Waits q) (or_fail k (commit_tx b.1)) (λ _. pure (a.0, b.0)) w3
                    (ground (arith, h3), ground (arith, h3)) (λ _ w4 h4. h4))))).1

  -- An own order that is pending or confirmed is cancelled.
  pub cancel_rows_calm :
      (order_id user_id : Uuid) (reason : Option String) (w : OrderWorld R) (o : OrdersOrder)
      → NoFailure w
      → find_order order_id w.db ≡ some o
      → o.user_id ≡ user_id
      → is_cancellable o.status ≡ true
      → (w' : OrderWorld R) × (cancel_rows order_id user_id reason w
          ≡ (ok (cancelled_row w.db.clock reason o, items_of order_id w.db.order_items), w'))
  unfolding cancel_rows Queries.get_order_for_update Queries.get_order_items_by_order_id
      Queries.cancel_order
  cancel_rows_calm order_id user_id reason w o calm found own is = (
    record w { db = with_order order_id (cancelled_row w.db.clock reason) w.db; script = [] },
    ground (arith, calm, found, is, ==_self user_id),
  )

module _ {R : Type 0} (ids : UuidText) (svc : ProductService R) (user_id : Uuid)
    (items : List OrderItemRequest) (shipping : Option ShippingAddress) where
  inserted_calm :
      (total : ℤ) (ds : List OrderItemData) (taken : List DecreasedItem) (w : OrderWorld R)
      → NoFailure w
      → NoFailure (insert_or_restore ids svc user_id total shipping ds taken w).1
  unfolding insert_or_restore
  inserted_calm total ds taken w calm =
      go (insert_order (create_params user_id total shipping) ds w)
        (insert_order-Waits (create_params user_id total shipping) ds w calm)
    where
      go :
          (p : Result Failure (OrdersOrder × List OrdersOrderItem) × OrderWorld R)
          → NoFailure p.1
          → (let a : Result Failure OrderResponse × OrderWorld R = elim p.0 [
            | ok r ↦ (ok (to_order_response r.0 r.1 shipping), p.1)
            | err e ↦ (err e, restore_stock ids svc taken p.1)
          ] in
              NoFailure a.1)
      go (ok r, w') c = c
      go (err e, w') c = (restore_stock-Kept ids svc w' taken w' (refl, refl, refl)).1 ∙ c

  pub create_order_calm :
      (w : OrderWorld R) → NoFailure w → NoFailure (create_order ids svc user_id items shipping w).1
  unfolding create_order
  create_order_calm w calm =
      bind_keeps NoFailure (price_items ids svc items (pos 0))
        (λ a. decrease_items ids svc items [] >>= λ taken.
          insert_or_restore ids svc user_id a.1 shipping a.0 taken)
        w ((price_items-Kept ids svc w items (pos 0) w (refl, refl, refl)).1 ∙ calm)
        (λ a w1 c1.
          bind_keeps NoFailure (decrease_items ids svc items [])
            (λ taken. insert_or_restore ids svc user_id a.1 shipping a.0 taken) w1
            ((decrease_items-Kept ids svc w1 items [] w1 (refl, refl, refl)).1 ∙ c1)
            (λ taken w2 c2. inserted_calm a.1 a.0 taken w2 c2))

-- So `CancelOrder` answers with the order cancelled.
pub cancel_order_calm :
    {R : Type 0} (ids : UuidText) (svc : ProductService R) (order_id user_id : Uuid)
    (reason : Option String) (w : OrderWorld R) (o : OrdersOrder)
    → NoFailure w
    → find_order order_id w.db ≡ some o
    → o.user_id ≡ user_id
    → is_cancellable o.status ≡ true
    → (w' : OrderWorld R) × (cancel_order ids svc order_id user_id reason w ≡ (
      ok (
          to_order_response
            (cancelled_row w.db.clock reason o)
            (items_of order_id w.db.order_items)
            none),
      w',
    ))
unfolding cancel_order
cancel_order_calm {R} ids svc order_id user_id reason w o calm found own is =
    let (w1, e) = cancel_rows_calm order_id user_id reason w o calm found own is in
    (
      restore_stock ids svc (map to_restore (items_of order_id w.db.order_items)) w1,
      ap
          (λ (p : Result Failure (OrdersOrder × List OrdersOrderItem) × OrderWorld R).
            let q : Result Failure OrderResponse × OrderWorld R = elim p.0 [
              | ok r ↦ (
                ok (to_order_response r.0 r.1 none),
                restore_stock ids svc (map to_restore r.1) p.1,
              )
              | err x ↦ (err x, p.1)
            ] in
            q)
          e,
    )
