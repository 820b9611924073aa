-- ===== src/Order/Service/Create/Insert.antt =====
-- Step 3 of `CreateOrder`: one transaction, which adds the order with all its items or nothing.
use mathlib.Core.Path.{◌∙◌, subst}
use mathlib.Core.List.{append-nil, append_assoc}
use flash_deals.Base.{
  ℕ, ◌≡◌, refl, sym, ap, List, [], ◌∷◌, ◌++◌, Uuid, Result, ok, err, Exec, pure, ◌>>=◌, bind_cases,
  arith, NoLost,
}
use flash_deals.Order.State.{OrderWorld, OrderDb, OrdersOrderItem, Error, in_tx}
use flash_deals.Order.Queries
use flash_deals.Order.Queries.{CreateOrderParams, CreateOrderItemParams, find_order}
use flash_deals.Order.Service.Transaction.{Beside, in_tx-ok, after_in_tx}
use flash_deals.Order.Service.Pricing.{OrderItemData}
use flash_deals.Order.Service.Create.{item_params, insert_items}

abbrev pub line_of : OrdersOrderItem → OrderItemData
line_of row = record {
  product_id = row.product_id;
  deal_id = row.deal_id;
  product_name = row.product_name;
  quantity = row.quantity;
  unit_price = row.unit_price;
  subtotal = row.subtotal;
}

-- `rows` are the lines `ds`, as items of the order.
abbrev pub AreLines : Uuid → List OrderItemData → List OrdersOrderItem → Type 0
AreLines order_id [] [] = Unit {0}
AreLines order_id [] (row ∷ rows) = ⊥
AreLines order_id (d ∷ ds) [] = ⊥
AreLines order_id (d ∷ ds) (row ∷ rows) =
    (line_of row ≡ d) × (row.order_id ≡ order_id) × AreLines order_id ds rows

-- All rows have that time.
abbrev pub AtTime : ℕ → List OrdersOrderItem → Type 0
AtTime t [] = Unit {0}
AtTime t (row ∷ rows) = (row.created_at ≡ t) × AtTime t rows

-- One item in the transaction.
pub create_order_item_lem :
    (order_id : Uuid) (d : OrderItemData) (tx : OrderDb) (row : OrdersOrderItem) (tx' : OrderDb)
    → Queries.create_order_item (item_params order_id d) tx ≡ (ok row, tx')
    → (line_of row ≡ d)
      × (row.order_id ≡ order_id)
      × (tx'.orders ≡ tx.orders)
      × (tx'.order_items ≡ tx.order_items ++ row ∷ [])
      × (row.created_at ≡ tx.clock)
      × (tx'.clock ≡ tx.clock)
unfolding Queries.create_order_item
create_order_item_lem order_id d tx row tx' h = ground arith

module _ {R : Type 0} where
  -- The rows that a run of the loop has added, or the world as it was.
  abbrev pub InsertsItems :
      Uuid
      → List OrderItemData
      → OrderDb
      → OrderWorld R
      → Result Error (List OrdersOrderItem × OrderDb) × OrderWorld R
      → Type 0
  InsertsItems order_id ds tx w (ok (rows, tx'), w') =
      AreLines order_id ds rows
      × (tx'.orders ≡ tx.orders)
      × (tx'.order_items ≡ tx.order_items ++ rows)
      × (w'.db ≡ w.db)
      × Beside w w'
      × NoLost w'.script
      × AtTime tx.clock rows
  InsertsItems order_id ds tx w (err e, w') = (w'.db ≡ w.db) × Beside w w'

  more_items :
      (order_id : Uuid) (d : OrderItemData) (ds : List OrderItemData) (tx tx1 : OrderDb)
      (w w1 : OrderWorld R) (row : OrdersOrderItem)
      (m : Exec (OrderWorld R) Error (List OrdersOrderItem × OrderDb))
      → in_tx (Queries.create_order_item (item_params order_id d)) tx w ≡ (ok (row, tx1), w1)
      → NoLost w.script
      → InsertsItems order_id ds tx1 w1 (m w1)
      → InsertsItems order_id (d ∷ ds) tx w ((m >>= λ q. pure (row ∷ q.0, q.1)) w1)
  more_items order_id d ds tx tx1 w w1 row m h n = go (m w1)
    where
      one : (w1.db ≡ w.db) × Beside w w1 × NoLost w1.script
      one = after_in_tx (Queries.create_order_item (item_params order_id d)) tx w w1 _ h n

      item :
          (line_of row ≡ d)
          × (row.order_id ≡ order_id)
          × (tx1.orders ≡ tx.orders)
          × (tx1.order_items ≡ tx.order_items ++ row ∷ [])
          × (row.created_at ≡ tx.clock)
          × (tx1.clock ≡ tx.clock)
      item =
          create_order_item_lem order_id d tx row tx1
            (in_tx-ok (Queries.create_order_item (item_params order_id d)) tx w w1 row tx1 h)

      go :
          (p : Result Error (List OrdersOrderItem × OrderDb) × OrderWorld R)
          → InsertsItems order_id ds tx1 w1 p
          → InsertsItems order_id (d ∷ ds) tx w (((λ _. p) >>= λ q. pure (row ∷ q.0, q.1)) w1)
      go (ok (rows, tx2), w2) (lines, orders, items, db, (r, net, c), last, times) = (
        (item.0, item.1, lines),
        orders ∙ item.2,
        items
            ∙ ap (λ (l : List OrdersOrderItem). l ++ rows) item.3
            ∙ append_assoc tx.order_items (row ∷ []) rows,
        db ∙ one.0,
        (r ∙ one.1.0, net ∙ one.1.1, c ∙ one.1.2),
        last,
        (item.4, subst (λ t. AtTime t rows) item.5 times),
      )
      go (err e, w2) (db, (r, net, c)) = (db ∙ one.0, (r ∙ one.1.0, net ∙ one.1.1, c ∙ one.1.2))

  pub insert_items-InsertsItems :
      (order_id : Uuid) (ds : List OrderItemData) (tx : OrderDb) (w : OrderWorld R)
      → NoLost w.script
      → InsertsItems order_id ds tx w (insert_items order_id ds tx w)
  unfolding insert_items
  insert_items-InsertsItems order_id [] tx w h =
      (tt, refl, sym (append-nil tx.order_items), refl, (refl, refl, refl), h, tt)
  insert_items-InsertsItems order_id (d ∷ ds) tx w h =
      let q = Queries.create_order_item (item_params order_id d) in
      bind_cases (InsertsItems order_id (d ∷ ds) tx w) (in_tx q tx)
        (λ a. insert_items order_id ds a.1 >>= λ b. pure (a.0 ∷ b.0, b.1)) w
        (λ a w' e.
          more_items order_id d ds tx a.1 w w' a.0 (insert_items order_id ds a.1) e h
            (insert_items-InsertsItems order_id ds a.1 w' (after_in_tx q tx w w' (ok a) e h).2))
        (λ e w' eq. let s = after_in_tx q tx w w' (err e) eq h in (s.0, s.1))
