-- ===== src/Order/Lifecycle/Rows.antt =====
-- The loop that adds the items of an order, whatever the calls of the database do.
use mathlib.Core.Path.{◌∙◌}
use mathlib.Core.List.{append-nil, append_assoc}
use flash_deals.Base.{
  ◌≤◌, ◌≡◌, refl, sym, ap, Result, ok, err, Exec, ◌>>=◌, pure, List, [], ◌∷◌, ◌++◌, Uuid,
  bind_cases, arith,
}
use flash_deals.Order.State.{OrderWorld, OrderDb, OrdersOrderItem, Error, in_tx}
use flash_deals.Order.Queries
use flash_deals.Order.Service.{Failure}
use flash_deals.Order.Service.Transaction.{or_fail, in_tx-ok}
use flash_deals.Order.Service.Transaction.Any.{Unmoved, Unmoved-trans, in_tx-Unmoved}
use flash_deals.Order.Service.Pricing.{OrderItemData}
use flash_deals.Order.Service.Create.{item_params, insert_items}
use flash_deals.Order.Service.Create.Insert.{AreLines, create_order_item_lem}

create_order_item_next :
    (order_id : Uuid) (d : OrderItemData) (tx : OrderDb) (row : OrdersOrderItem) (tx' : OrderDb)
    → Queries.create_order_item (item_params order_id d) tx ≡ (ok row, tx')
    → tx.next_id ≤ tx'.next_id
unfolding Queries.create_order_item
create_order_item_next order_id d tx row tx' h = ground arith

module _ {R : Type 0} where
  abbrev pub AddsRows :
      Uuid
      → List OrderItemData
      → OrderDb
      → OrderWorld R
      → Result Error (List OrdersOrderItem × OrderDb) × OrderWorld R
      → Type 0
  AddsRows order_id ds tx w (ok (rows, tx'), w') =
      AreLines order_id ds rows
      × (tx'.orders ≡ tx.orders)
      × (tx'.order_items ≡ tx.order_items ++ rows)
      × (tx.next_id ≤ tx'.next_id)
      × Unmoved w w'
  AddsRows order_id ds tx w (err e, w') = Unmoved w w'

  more_rows :
      (order_id : Uuid) (d : OrderItemData) (ds : List OrderItemData) (tx tx1 : OrderDb)
      (w w1 : OrderWorld R) (row : OrdersOrderItem)
      (p : Result Error (List OrdersOrderItem × OrderDb) × OrderWorld R)
      → Queries.create_order_item (item_params order_id d) tx ≡ (ok row, tx1)
      → Unmoved w w1
      → AddsRows order_id ds tx1 w1 p
      → AddsRows order_id (d ∷ ds) tx w (((λ _. p) >>= λ q. pure (row ∷ q.0, q.1)) w1)
  more_rows order_id d ds tx tx1 w w1 row (ok (rows, tx2), w2) e s (lines, orders, items, n, t) =
      let (line, own, os, is, _, _) = create_order_item_lem order_id d tx row tx1 e in
      (
        (line, own, lines),
        orders ∙ os,
        items
            ∙ ap (λ (l : List OrdersOrderItem). l ++ rows) is
            ∙ append_assoc tx.order_items (row ∷ []) rows,
        omega (arith, create_order_item_next order_id d tx row tx1 e, n),
        Unmoved-trans w w1 w2 s t,
      )
  more_rows order_id d ds tx tx1 w w1 row (err x, w2) e s t = Unmoved-trans w w1 w2 s t

  pub insert_items-AddsRows :
      (order_id : Uuid) (ds : List OrderItemData) (tx : OrderDb) (w : OrderWorld R)
      → AddsRows order_id ds tx w (insert_items order_id ds tx w)
  unfolding insert_items
  insert_items-AddsRows order_id [] tx w =
      (tt, refl, sym (append-nil tx.order_items), omega arith, (refl, refl))
  insert_items-AddsRows order_id (d ∷ ds) tx w =
      let q = Queries.create_order_item (item_params order_id d) in
      bind_cases (AddsRows order_id (d ∷ ds) tx w) (in_tx q tx)
        (λ a. insert_items order_id ds a.1 >>= λ b. pure (a.0 ∷ b.0, b.1)) w
        (λ a w' e.
          more_rows order_id d ds tx a.1 w w' a.0 (insert_items order_id ds a.1 w')
            (in_tx-ok q tx w w' a.0 a.1 e) (in_tx-Unmoved q tx w w' (ok a) e)
            (insert_items-AddsRows order_id ds a.1 w'))
        (λ x w' e. in_tx-Unmoved q tx w w' (err x) e)

-- The loop inside a transaction.
pub insert_items_any :
    {R B : Type 0} (Q : OrderWorld R → Type 0) (f : Error → Failure) (start w : OrderWorld R)
    → Unmoved start w
    → (id : Uuid) (ds : List OrderItemData) (tx : OrderDb)
      (k : List OrdersOrderItem × OrderDb → Exec (OrderWorld R) Failure B)
    → ((rows : List OrdersOrderItem) (tx' : OrderDb) (w' : OrderWorld R)
        → AreLines id ds rows
        → tx'.orders ≡ tx.orders
        → tx'.order_items ≡ tx.order_items ++ rows
        → tx.next_id ≤ tx'.next_id
        → Unmoved start w'
        → Q (k (rows, tx') w').1)
    → ((w' : OrderWorld R) → Unmoved start w' → Q w')
    → Q ((or_fail f (insert_items id ds tx) >>= k) w).1
insert_items_any {R} Q f start w s id ds tx k good bad =
    go (insert_items id ds tx w) (insert_items-AddsRows id ds tx w)
  where
    go :
        (p : Result Error (List OrdersOrderItem × OrderDb) × OrderWorld R)
        → AddsRows id ds tx w p
        → Q ((or_fail f (λ _. p) >>= k) w).1
    go (ok (rows, tx'), w') (lines, os, is, n, t) =
        good rows tx' w' lines os is n (Unmoved-trans start w w' s t)
    go (err e, w') t = bad w' (Unmoved-trans start w w' s t)
