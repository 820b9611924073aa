-- ===== src/Order/Lifecycle/Create.antt =====
-- `CreateOrder` and `AsyncCreateOrder` make one change at most, whatever the calls do.
use Prim.Native.String.{◌++◌ as append}
use mathlib.Core.Path.{◌∙◌, subst}
use flash_deals.Base.{
  ◌+◌, ◌≤◌, ℤ, pos, ◌≡◌, refl, sym, ap, Option, List, [], ◌∷◌, ◌++◌, Uuid, UuidText, Result, ok,
  err, ◌>>=◌, ◌>>◌, pure, bind_cases, next, arith,
}
use flash_deals.Rpc.{ProductService}
use flash_deals.Order.State.{
  OrderWorld, OrderDb, OrdersOrder, OrdersOrderItem, pending, Error, error_text, in_tx, commit_tx,
}
use flash_deals.Order.Queries
use flash_deals.Order.Queries.{CreateOrderParams}
use flash_deals.Order.Client.Stock.{Kept}
use flash_deals.Order.Service.{
  OrderItemRequest, ShippingAddress, OrderResponse, Failure, to_order_response,
}
use flash_deals.Order.Service.Transaction.{or_fail}
use flash_deals.Order.Service.Transaction.Any.{Unmoved, begin_tx_any, in_tx_any, commit_tx_any}
use flash_deals.Order.Service.Pricing.{OrderItemData, price_items}
use flash_deals.Order.Service.Pricing.Total.{AllPriced, add_subtotals, Prices, price_items-Prices}
use flash_deals.Order.Service.Stock.{DecreasedItem, decrease_items, restore_stock}
use flash_deals.Order.Service.Create.{
  create_failed, create_params, insert_items, insert_order, insert_or_restore, create_order,
}
use flash_deals.Order.Service.Create.Insert.{AreLines}
use flash_deals.Order.Lifecycle.{Stored, stored, Change, kept, placed}
use flash_deals.Order.Lifecycle.Calls.{price_items-Kept, decrease_items-Kept, restore_stock-Kept}
use flash_deals.Order.Lifecycle.Rows.{insert_items_any}

create_order_lem :
    (params : CreateOrderParams) (tx tx' : OrderDb) (order : OrdersOrder)
    → Queries.create_order params tx ≡ (ok order, tx')
    → (order.id ≡ tx.next_id)
      × (order.status ≡ params.status)
      × (order.total_amount ≡ params.total_amount)
      × (tx'.orders ≡ order ∷ tx.orders)
      × (tx'.order_items ≡ tx.order_items)
      × (tx.next_id + 1 ≤ tx'.next_id)
unfolding Queries.create_order
create_order_lem params tx tx' order h = ground arith

-- Calls of the product service are no change of the order service.
pub Change-Kept :
    {R : Type 0} (s : Stored) (w w' : OrderWorld R)
    → Change s (stored w)
    → Kept w w'
    → Change s (stored w')
Change-Kept s w w' c (d, _, q) = subst (Change s) (λ i. record { db = sym d i; queue = sym q i }) c

abbrev pub nothing_new : (s : Stored) → Change s s
nothing_new s = kept (refl, refl, omega arith) refl

pub Change-Unmoved :
    {R : Type 0} (w w' : OrderWorld R) → Unmoved w w' → Change (stored w) (stored w')
Change-Unmoved w w' (d, q) =
    subst (Change (stored w)) (λ i. record { db = sym d i; queue = sym q i })
      (nothing_new (stored w))

module _ {R : Type 0} (params : CreateOrderParams) (ds : List OrderItemData) (w : OrderWorld R)
    (new : params.status ≡ pending) (priced : AllPriced ds)
    (summed : params.total_amount ≡ add_subtotals (pos 0) ds) where
  abbrev Q : OrderWorld R → Type 0
  Q w' = Change (stored w) (stored w')

  -- The transaction, once it is committed.
  committed :
      (order : OrdersOrder) (tx tx' : OrderDb) (rows : List OrdersOrderItem)
      → Queries.create_order params w.db ≡ (ok order, tx)
      → AreLines order.id ds rows
      → tx'.orders ≡ tx.orders
      → tx'.order_items ≡ tx.order_items ++ rows
      → tx.next_id ≤ tx'.next_id
      → (w' : OrderWorld R) → w'.db ≡ tx'
      → w'.queue ≡ w.queue
      → Q w'
  committed order tx tx' rows e lines os is n w' d q =
      let (id, st, total, made, items, next) = create_order_lem params w.db tx order e in
      subst (λ (s : OrderDb). Change (stored w) (record { db = s; queue = w'.queue })) (sym d)
        (placed order
          (record {
            rows = rows;
            lines = ds;
            added_order = os ∙ made;
            added_items = is ∙ ap (λ (l : List OrdersOrderItem). l ++ rows) items;
            are_lines = lines;
            priced = priced;
            summed = total ∙ summed;
          })
          id (st ∙ new) (omega (arith, next, n)) q)

  pub insert_order-Change : Change (stored w) (stored (insert_order params ds w).1)
  unfolding insert_order
  insert_order-Change =
      let f : Error → Failure = λ e. create_failed (append "주문 생성에 실패했습니다: " (error_text e)) in
      let g : Error → Failure = λ _. create_failed "주문 아이템 생성에 실패했습니다." in
      let k : Error → Failure = λ _. create_failed "주문 커밋에 실패했습니다." in
      let start : Error → Failure = λ _. create_failed "주문 생성에 실패했습니다." in
      begin_tx_any Q start w w (refl, refl)
        (λ tx. or_fail f (in_tx (Queries.create_order params) tx) >>= λ a.
          or_fail g (insert_items a.0.id ds a.1) >>= λ b.
          or_fail k (commit_tx b.1) >> pure (a.0, b.0))
        (λ w1 s.
          in_tx_any Q f w w1 s (Queries.create_order params) w.db
            (λ a. or_fail g (insert_items a.0.id ds a.1) >>= λ b.
              or_fail k (commit_tx b.1) >> pure (a.0, b.0))
            (λ order tx w2 e t.
              insert_items_any Q g w w2 t order.id ds tx
                (λ b. or_fail k (commit_tx b.1) >> pure (order, b.0))
                (λ rows tx' w3 lines os is n u.
                  commit_tx_any Q k w w3 u tx' (λ _. pure (order, rows))
                    (committed order tx tx' rows e lines os is n)
                    (committed order tx tx' rows e lines os is n) (Change-Unmoved w))
                (Change-Unmoved w))
            (Change-Unmoved w))
        (Change-Unmoved w)

module _ {R : Type 0} (ids : UuidText) (svc : ProductService R)
    (items : List OrderItemRequest) where
  pub after_prices :
      (w1 w1' : OrderWorld R) (r : Result Failure (List OrderItemData × ℤ))
      → price_items ids svc items (pos 0) w1 ≡ (r, w1')
      → Kept w1 w1'
  after_prices w1 w1' r e =
      subst (λ (p : Result Failure (List OrderItemData × ℤ) × OrderWorld R). Kept w1 p.1) e
        (price_items-Kept ids svc w1 items (pos 0) w1 (refl, refl, refl))

  pub after_decrease :
      (w w1 w2 : OrderWorld R) (r : Result Failure (List DecreasedItem))
      → Kept w w1
      → decrease_items ids svc items [] w1 ≡ (r, w2)
      → Kept w w2
  after_decrease w w1 w2 r k e =
      subst (λ (p : Result Failure (List DecreasedItem) × OrderWorld R). Kept w p.1) e
        (decrease_items-Kept ids svc w items [] w1 k)

module _ {R : Type 0} (ids : UuidText) (svc : ProductService R) (user_id : Uuid)
    (shipping : Option ShippingAddress) (w : OrderWorld R) where
  -- The last step of `CreateOrder`, and the stock that goes back after a failure.
  inserted :
      (total : ℤ) (ds : List OrderItemData) (taken : List DecreasedItem) (w2 : OrderWorld R)
      → Kept w w2
      → AllPriced ds
      → total ≡ add_subtotals (pos 0) ds
      → Change (stored w) (stored (insert_or_restore ids svc user_id total shipping ds taken w2).1)
  unfolding insert_or_restore
  inserted total ds taken w2 (d, _, q) priced summed =
      subst
        (λ s. Change s (stored (insert_or_restore ids svc user_id total shipping ds taken w2).1))
        (λ i. record { db = d i; queue = q i })
        (go (insert_order params ds w2) (insert_order-Change params ds w2 refl priced summed))
    where
      params : CreateOrderParams
      params = create_params user_id total shipping

      go :
          (p : Result Failure (OrdersOrder × List OrdersOrderItem) × OrderWorld R)
          → Change (stored w2) (stored p.1)
          → (let a : Result Failure OrderResponse × OrderWorld R = elim p.0 [
            | ok r ↦ (ok (to_order_response r.0 r.1 shipping), p.1)
            | err e ↦ (err e, restore_stock ids svc taken p.1)
          ] in
              Change (stored w2) (stored a.1))
      go (ok r, w3) c = c
      go (err e, w3) c =
          Change-Kept (stored w2) w3 (restore_stock ids svc taken w3) c
            (restore_stock-Kept ids svc w3 taken w3 (refl, refl, refl))

  module _ (items : List OrderItemRequest) where
    prices :
        (w1 w1' : OrderWorld R) (a : List OrderItemData × ℤ)
        → price_items ids svc items (pos 0) w1 ≡ (ok a, w1')
        → AllPriced a.0 × (a.1 ≡ add_subtotals (pos 0) a.0)
    prices w1 w1' a e =
        let h : Prices (pos 0) items (ok a) =
          subst
            (λ (p : Result Failure (List OrderItemData × ℤ) × OrderWorld R).
              Prices (pos 0) items p.0)
            e (price_items-Prices ids svc items (pos 0) w1) in
        (h.1, h.2)

    -- `CreateOrder`, whatever its calls do.
    pub create_order-Change :
        Change (stored w) (stored (create_order ids svc user_id items shipping w).1)
    unfolding create_order
    create_order-Change =
        let Q : Result Failure OrderResponse × OrderWorld R → Type 0 =
          λ p. Change (stored w) (stored p.1) in
        let idle : (w' : OrderWorld R) → Kept w w' → Change (stored w) (stored w') =
          λ w'. Change-Kept (stored w) w w' (nothing_new (stored w)) in
        bind_cases Q (price_items ids svc items (pos 0))
          (λ a. decrease_items ids svc items [] >>= λ taken.
            insert_or_restore ids svc user_id a.1 shipping a.0 taken)
          w
          (λ a w1 e.
            bind_cases Q (decrease_items ids svc items [])
              (λ taken. insert_or_restore ids svc user_id a.1 shipping a.0 taken) w1
              (λ taken w2 e2.
                let (priced, summed) = prices w w1 a e in
                inserted a.1 a.0 taken w2
                  (after_decrease ids svc items w w1 w2 (ok taken)
                    (after_prices ids svc items w w1 (ok a) e) e2)
                  priced summed)
              (λ x w2 e2. idle w2 (
                after_decrease ids svc items w w1 w2 (err x)
                  (after_prices ids svc items w w1 (ok a) e) e2)))
          (λ x w1 e. idle w1 (after_prices ids svc items w w1 (err x) e))
