-- ===== src/Order/Service/Status/CancelRows.antt =====
-- The transaction of `CancelOrder`: the order is locked, checked and cancelled, and its items are read.
use mathlib.Core.Path.{◌∙◌, subst}
use flash_deals.Base.{
  ◌==◌, ==→eq, true, ◌≡◌, refl, sym, ap, Option, String, List, Uuid, some, Result, ok, err, pure,
  NoLost, arith, ◌>>=◌, ◌>>◌,
}
use flash_deals.Order.State.{OrderWorld, OrdersOrder, OrdersOrderItem, OrderDb, in_tx, commit_tx}
use flash_deals.Order.Queries
use flash_deals.Order.Queries.{
  GetOrderForUpdateRow, CancelOrderParams, find_order, items_of, cancelled_row,
}
use flash_deals.Order.Service.{Failure, raw}
use flash_deals.Order.Service.Transaction.{
  Beside, Idle, or_fail, begin_tx_cases, in_tx_cases, commit_tx_cases,
}
use flash_deals.Order.Service.Status.{
  is_cancellable, missing, forbidden, cannot_cancel, cancel_failed, cancel_uncommitted,
  cancel_locked, cancel_checked, cancel_rows,
}
use flash_deals.Order.Service.Status.Checks.{
  checked, get_order_for_update_lem, with_order, cancel_order_lem,
}

-- What the transaction has done, by how it ended.
abbrev pub CancelsRows :
    {R : Type 0}
    → Uuid
    → Uuid
    → Option String
    → OrderWorld R
    → Result Failure (OrdersOrder × List OrdersOrderItem) × OrderWorld R
    → Type 0
CancelsRows order_id user_id reason w (ok (order, items), w') =
    (o : OrdersOrder) × (find_order order_id w.db ≡ some o)
    × (o.user_id ≡ user_id)
    × (is_cancellable o.status ≡ true)
    × (w'.db ≡ with_order order_id (cancelled_row w.db.clock reason) w.db)
    × (order ≡ cancelled_row w.db.clock reason o)
    × (items ≡ items_of order_id w.db.order_items)
    × Beside w w'
CancelsRows order_id user_id reason w (err e, w') = (w'.db ≡ w.db) × Beside w w'

pub get_order_items_lem :
    (id : Uuid) (db db' : OrderDb) (items : List OrdersOrderItem)
    → Queries.get_order_items_by_order_id id db ≡ (ok items, db')
    → (items ≡ items_of id db.order_items) × (db' ≡ db)
unfolding Queries.get_order_items_by_order_id
get_order_items_lem id db db' items h = (ground arith, ground arith)

module _ {R : Type 0} (order_id user_id : Uuid) (reason : Option String) (w : OrderWorld R) where
  abbrev arg : CancelOrderParams
  arg = record { id = order_id; cancel_reason = reason }

  cancelled_and_committed :
      (o : OrdersOrder) (items : List OrdersOrderItem) (w' : OrderWorld R)
      → Idle w w'
      → find_order order_id w.db ≡ some o
      → o.user_id ≡ user_id
      → is_cancellable o.status ≡ true
      → items ≡ items_of order_id w.db.order_items
      → CancelsRows order_id user_id reason w (
          (or_fail cancel_failed (in_tx (Queries.cancel_order arg) w.db) >>= λ a.
          or_fail cancel_uncommitted (commit_tx a.1) >> pure (a.0, items))
            w')
  cancelled_and_committed o items w' s found own is its =
      in_tx_cases (CancelsRows order_id user_id reason w) cancel_failed w w' s
        (Queries.cancel_order arg) w.db
        (λ a. or_fail cancel_uncommitted (commit_tx a.1) >> pure (a.0, items))
        (λ row tx w2 e t.
          let (new_row, new_tx) = cancel_order_lem arg w.db tx o row found e in
          commit_tx_cases (CancelsRows order_id user_id reason w) cancel_uncommitted w w2 t tx
            (λ _. pure (row, items)) (λ w3 d b. (o, found, own, is, d ∙ new_tx, new_row, its, b))
            (λ e w3 u. (u.0, u.1)))
        (λ e w2 t. (t.0, t.1))

  cancel_locked-CancelsRows :
      (o : OrdersOrder) (w' : OrderWorld R)
      → Idle w w'
      → find_order order_id w.db ≡ some o
      → o.user_id ≡ user_id
      → is_cancellable o.status ≡ true
      → CancelsRows order_id user_id reason w (cancel_locked order_id reason w.db w')
  unfolding cancel_locked
  cancel_locked-CancelsRows o w' s found own is =
      in_tx_cases (CancelsRows order_id user_id reason w) raw w w' s
        (Queries.get_order_items_by_order_id order_id) w.db
        (λ a. or_fail cancel_failed (in_tx (Queries.cancel_order arg) a.1) >>= λ b.
          or_fail cancel_uncommitted (commit_tx b.1) >> pure (b.0, a.0))
        (λ items tx w2 e t.
          let (its, same_tx) = get_order_items_lem order_id w.db tx items e in
          subst
            (λ db. CancelsRows order_id user_id reason w (
              (or_fail cancel_failed (in_tx (Queries.cancel_order arg) db) >>= λ b.
              or_fail cancel_uncommitted (commit_tx b.1) >> pure (b.0, items))
                w2))
            (sym same_tx) (cancelled_and_committed o items w2 t found own is its))
        (λ e w2 t. (t.0, t.1))

  cancel_checked-CancelsRows :
      (row : GetOrderForUpdateRow) (tx : OrderDb) (w' : OrderWorld R)
      → Queries.get_order_for_update order_id w.db ≡ (ok row, tx)
      → Idle w w'
      → CancelsRows order_id user_id reason w (cancel_checked order_id user_id reason (row, tx) w')
  unfolding cancel_checked
  cancel_checked-CancelsRows row tx w' e s =
      let (o, found, same_user, same_status, same_tx) =
        get_order_for_update_lem order_id w.db tx row e in
      checked (CancelsRows order_id user_id reason w) (cancel_locked order_id reason tx)
        (row.user_id == user_id) (is_cancellable row.status) (cannot_cancel row.status) forbidden w'
        (λ own is.
          subst (λ db. CancelsRows order_id user_id reason w (cancel_locked order_id reason db w'))
            (sym same_tx)
            (cancel_locked-CancelsRows o w' s found (sym same_user ∙ ==→eq row.user_id user_id own)
              (ap is_cancellable (sym same_status) ∙ is)))
        (λ f. (s.0, s.1))

  pub cancel_rows-CancelsRows :
      NoLost w.script
      → CancelsRows order_id user_id reason w (cancel_rows order_id user_id reason w)
  unfolding cancel_rows
  cancel_rows-CancelsRows n =
      begin_tx_cases (CancelsRows order_id user_id reason w) cancel_failed w w
        (refl, (refl, refl, refl), n)
        (λ tx.
          or_fail missing (in_tx (Queries.get_order_for_update order_id) tx)
          >>= cancel_checked order_id user_id reason)
        (λ w1 s.
          in_tx_cases (CancelsRows order_id user_id reason w) missing w w1 s
            (Queries.get_order_for_update order_id) w.db (cancel_checked order_id user_id reason)
            cancel_checked-CancelsRows (λ e w2 t. (t.0, t.1)))
        (λ e w1 t. (t.0, t.1))
