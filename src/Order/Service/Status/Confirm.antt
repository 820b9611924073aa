-- ===== src/Order/Service/Status/Confirm.antt =====
-- `ConfirmOrder`: an own pending order becomes confirmed, or nothing changes.
use mathlib.Core.Path.{◌∙◌, subst}
use flash_deals.Base.{
  ◌==◌, ==→eq, true, ◌≡◌, refl, sym, ap, none, some, [], Uuid, Result, ok, err, pure, NoLost, arith,
  ◌>>=◌, ◌>>◌,
}
use flash_deals.Order.State.{
  OrderWorld, OrdersOrder, OrderDb, OrderStatus, pending, confirmed, shipped, delivered, cancelled,
  commit_tx, in_tx, in_closed_tx,
}
use flash_deals.Order.Queries
use flash_deals.Order.Queries.{GetOrderForUpdateRow, find_order, confirmed_row}
use flash_deals.Order.Service.{OrderResponse, Failure, to_order_response}
use flash_deals.Order.Service.Transaction.{
  Beside, Idle, or_fail, begin_tx_cases, in_tx_cases, commit_tx_cases,
}
use flash_deals.Order.Service.Status.{
  is_pending, confirm_locked, confirm_checked, confirm_order, confirm_failed, confirm_uncommitted,
  missing, forbidden, cannot_confirm, or_nil,
}
use flash_deals.Order.Service.Status.Checks.{
  checked, get_order_for_update_lem, with_order, confirm_order_lem,
}

pub is_pending→eq : (s : OrderStatus) → is_pending s ≡ true → s ≡ pending
is_pending→eq pending h = refl
is_pending→eq confirmed h = ground (arith, h)
is_pending→eq shipped h = ground (arith, h)
is_pending→eq delivered h = ground (arith, h)
is_pending→eq cancelled h = ground (arith, h)

-- What `confirm_order` has done, by how it ended.
abbrev pub Confirms :
    {R : Type 0} → Uuid → Uuid → OrderWorld R → Result Failure OrderResponse × OrderWorld R → Type 0
Confirms order_id user_id w (ok response, w') =
    (o : OrdersOrder) × (find_order order_id w.db ≡ some o)
    × (o.user_id ≡ user_id)
    × (o.status ≡ pending)
    × (w'.db ≡ with_order order_id (confirmed_row w.db.clock) w.db)
    × (response ≡ to_order_response (confirmed_row w.db.clock o) [] none)
    × Beside w w'
Confirms order_id user_id w (err e, w') = (w'.db ≡ w.db) × Beside w w'

module _ {R : Type 0} (order_id user_id : Uuid) (w : OrderWorld R) where
  confirm_locked-Confirms :
      (o : OrdersOrder) (w' : OrderWorld R)
      → Idle w w'
      → find_order order_id w.db ≡ some o
      → o.user_id ≡ user_id
      → o.status ≡ pending
      → Confirms order_id user_id w (confirm_locked order_id w.db w')
  unfolding confirm_locked
  confirm_locked-Confirms o w' s found own is =
      in_tx_cases (Confirms order_id user_id w) confirm_failed w w' s
        (Queries.confirm_order order_id) w.db
        (λ a.
          or_fail confirm_uncommitted (commit_tx a.1)
          >> (or_nil in_closed_tx >>= λ items. pure (to_order_response a.0 items none)))
        (λ row tx w2 e t.
          let (new_row, new_tx) = confirm_order_lem order_id w.db tx o row found e in
          commit_tx_cases (Confirms order_id user_id w) confirm_uncommitted w w2 t tx
            (λ _. or_nil in_closed_tx >>= λ items. pure (to_order_response row items none))
            (λ w3 d b.
              (o, found, own, is, d ∙ new_tx, ap (λ r. to_order_response r [] none) new_row, b))
            (λ e w3 u. (u.0, u.1)))
        (λ e w2 t. (t.0, t.1))

  confirm_checked-Confirms :
      (row : GetOrderForUpdateRow) (tx : OrderDb) (w' : OrderWorld R)
      → Queries.get_order_for_update order_id w.db ≡ (ok row, tx)
      → Idle w w'
      → Confirms order_id user_id w (confirm_checked order_id user_id (row, tx) w')
  unfolding confirm_checked
  confirm_checked-Confirms row tx w' e s =
      let (o, found, same_user, same_status, same_tx) =
        get_order_for_update_lem order_id w.db tx row e in
      checked (Confirms order_id user_id w) (confirm_locked order_id tx) (row.user_id == user_id)
        (is_pending row.status) (cannot_confirm row.status) forbidden w'
        (λ own is.
          subst (λ db. Confirms order_id user_id w (confirm_locked order_id db w')) (sym same_tx)
            (confirm_locked-Confirms o w' s found (sym same_user ∙ ==→eq row.user_id user_id own)
              (sym same_status ∙ is_pending→eq row.status is)))
        (λ f. (s.0, s.1))

  -- Where no answer of the database is lost, a confirmation that succeeds found a pending order of
  -- the user, and has changed its status, the time of its update and nothing else; its answer has no
  -- items. One that fails has changed nothing.
  pub confirm_order-Confirms :
      NoLost w.script → Confirms order_id user_id w (confirm_order order_id user_id w)
  unfolding confirm_order
  confirm_order-Confirms n =
      begin_tx_cases (Confirms order_id user_id w) confirm_failed w w (refl, (refl, refl, refl), n)
        (λ tx.
          or_fail missing (in_tx (Queries.get_order_for_update order_id) tx)
          >>= confirm_checked order_id user_id)
        (λ w1 s.
          in_tx_cases (Confirms order_id user_id w) missing w w1 s
            (Queries.get_order_for_update order_id) w.db (confirm_checked order_id user_id)
            confirm_checked-Confirms (λ e w2 t. (t.0, t.1)))
        (λ e w1 t. (t.0, t.1))
