-- ===== src/Order/Service/Create/Commit.antt =====
-- The transaction of `CreateOrder` as a whole: the order with all its items is added, or nothing.
use mathlib.Core.Path.{◌∙◌, subst}
use flash_deals.Base.{
  ℕ, ◌≡◌, refl, ap, none, List, ◌∷◌, ◌++◌, Result, ok, err, Exec, pure, ◌>>=◌, ◌>>◌, bind_cases,
  arith, NoLost,
}
use Prim.Native.String.{◌++◌ as append}
use flash_deals.Order.State.{
  OrderWorld, OrderDb, OrdersOrder, OrdersOrderItem, Error, error_text, in_tx, commit_tx,
}
use flash_deals.Order.Queries
use flash_deals.Order.Queries.{CreateOrderParams, find_order}
use flash_deals.Order.Service.Transaction.{
  or_fail, Beside, Idle, Idle-trans, or_fail-ok, or_fail-err, begin_tx_cases, in_tx_cases,
  commit_tx_cases,
}
use flash_deals.Order.Service.{Failure}
use flash_deals.Order.Service.Pricing.{OrderItemData}
use flash_deals.Order.Service.Create.{create_failed, insert_items, insert_order}
use flash_deals.Order.Service.Create.Insert.{
  AreLines, AtTime, InsertsItems, insert_items-InsertsItems,
}

-- The order's row says what was asked for, under the next identifier.
abbrev pub IsOrder : CreateOrderParams → OrderDb → OrdersOrder → Type 0
IsOrder params db order =
    (order.id ≡ db.next_id)
    × (order.user_id ≡ params.user_id)
    × (order.total_amount ≡ params.total_amount)
    × (order.status ≡ params.status)
    × (order.cancelled_at ≡ none)

create_order_lem :
    (params : CreateOrderParams) (tx tx' : OrderDb) (order : OrdersOrder)
    → Queries.create_order params tx ≡ (ok order, tx')
    → IsOrder params tx order
      × (tx'.orders ≡ order ∷ tx.orders)
      × (tx'.order_items ≡ tx.order_items)
unfolding Queries.create_order
create_order_lem params tx tx' order h = ground arith

-- What the transaction has done, by how it ended.
abbrev pub InsertsOrder :
    {R : Type 0}
    → CreateOrderParams
    → List OrderItemData
    → OrderWorld R
    → Result Failure (OrdersOrder × List OrdersOrderItem) × OrderWorld R
    → Type 0
InsertsOrder params ds w (ok (order, rows), w') =
    IsOrder params w.db order
    × AreLines order.id ds rows
    × (w'.db.orders ≡ order ∷ w.db.orders)
    × (w'.db.order_items ≡ w.db.order_items ++ rows)
    × Beside w w'
    × ((t : ℕ) × AtTime t rows)
InsertsOrder params ds w (err e, w') = (w'.db ≡ w.db) × Beside w w'

module _ {R : Type 0} where
  -- The end of the transaction, from the tables that it has come to.
  finish :
      (params : CreateOrderParams) (ds : List OrderItemData) (order : OrdersOrder)
      (rows : List OrdersOrderItem) (f : Error → Failure) (tx : OrderDb) (w w' : OrderWorld R)
      → Idle w w'
      → IsOrder params w.db order
      → AreLines order.id ds rows
      → tx.orders ≡ order ∷ w.db.orders
      → tx.order_items ≡ w.db.order_items ++ rows
      → (t : ℕ) × AtTime t rows
      → InsertsOrder params ds w ((or_fail f (commit_tx tx) >> pure (order, rows)) w')
  finish params ds order rows f tx w w' s is lines os is' times =
      commit_tx_cases (InsertsOrder params ds w) f w w' s tx (λ _. pure (order, rows))
        (λ w2 d b. (
          is,
          lines,
          ap (λ (t : OrderDb). t.orders) d ∙ os,
          ap (λ (t : OrderDb). t.order_items) d ∙ is',
          b,
          times,
        ))
        (λ e w2 t. (t.0, t.1))

  -- The items and the commit, after the order's row.
  with_items :
      (params : CreateOrderParams) (ds : List OrderItemData) (order : OrdersOrder)
      (f g : Error → Failure) (tx : OrderDb) (w w' : OrderWorld R)
      → Idle w w'
      → IsOrder params w.db order
      → tx.orders ≡ order ∷ w.db.orders
      → tx.order_items ≡ w.db.order_items
      → InsertsOrder params ds w (
          (or_fail f (insert_items order.id ds tx) >>= λ a.
          or_fail g (commit_tx a.1) >> pure (order, a.0))
            w')
  with_items params ds order f g tx w w' s is os is' =
      let m : Exec (OrderWorld R) Error (List OrdersOrderItem × OrderDb) =
        insert_items order.id ds tx in
      bind_cases (InsertsOrder params ds w) (or_fail f m)
        (λ a. or_fail g (commit_tx a.1) >> pure (order, a.0)) w'
        (λ a w2 e.
          let h : InsertsItems order.id ds tx w' (ok a, w2) =
            subst (InsertsItems order.id ds tx w') (or_fail-ok f m w' w2 a e)
              (insert_items-InsertsItems order.id ds tx w' s.2) in
          let (lines, orders, items, d, b, l, times) = h in
          finish params ds order a.0 g a.1 w w2 (Idle-trans w w' w2 s (d, b, l)) is lines
            (orders ∙ os) (items ∙ ap (λ (t : List OrdersOrderItem). t ++ a.0) is')
            (tx.clock, times))
        (λ e w2 eq.
          let (x, ex) = or_fail-err f m w' w2 e eq in
          let h : InsertsItems order.id ds tx w' (err x, w2) =
            subst (InsertsItems order.id ds tx w') ex
              (insert_items-InsertsItems order.id ds tx w' s.2) in
          (h.0 ∙ s.0, (h.1.0 ∙ s.1.0, h.1.1 ∙ s.1.1, h.1.2 ∙ s.1.2)))

  -- With no lost answer of the database the transaction adds the order, with the next identifier and
  -- what was asked for, and a row for each line, in order, or it changes nothing.
  pub insert_order-InsertsOrder :
      (params : CreateOrderParams) (ds : List OrderItemData) (w : OrderWorld R)
      → NoLost w.script
      → InsertsOrder params ds w (insert_order params ds w)
  unfolding insert_order
  insert_order-InsertsOrder params ds w n =
      let f : Error → Failure = λ e. create_failed (append "주문 생성에 실패했습니다: " (error_text e)) in
      let g : Error → Failure = λ _. create_failed "주문 아이템 생성에 실패했습니다." in
      let k : Error → Failure = λ _. create_failed "주문 커밋에 실패했습니다." in
      let start : Error → Failure = λ _. create_failed "주문 생성에 실패했습니다." in
      begin_tx_cases (InsertsOrder params ds w) start w w (refl, (refl, refl, refl), n)
        (λ tx. or_fail f (in_tx (Queries.create_order params) tx) >>= λ a.
          or_fail g (insert_items a.0.id ds a.1) >>= λ b.
          or_fail k (commit_tx b.1) >> pure (a.0, b.0))
        (λ w1 s.
          in_tx_cases (InsertsOrder params ds w) f w w1 s (Queries.create_order params) w.db
            (λ a. or_fail g (insert_items a.0.id ds a.1) >>= λ b.
              or_fail k (commit_tx b.1) >> pure (a.0, b.0))
            (λ order tx w2 e t.
              let (is, os, items) = create_order_lem params w.db tx order e in
              with_items params ds order g k tx w w2 t is os items)
            (λ e w2 t. (t.0, t.1)))
        (λ e w1 t. (t.0, t.1))
