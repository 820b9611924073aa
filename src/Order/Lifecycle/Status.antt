-- ===== src/Order/Lifecycle/Status.antt =====
-- `ConfirmOrder` and `CancelOrder` make one change at most, whatever the calls do.
use mathlib.Core.Path.{◌∙◌, subst}
use flash_deals.Base.{
  ◌==◌, ◌≡◌, refl, sym, ap, true, none, some, Option, String, List, map, Uuid, UuidText, Result, ok,
  err, ◌>>=◌, ◌>>◌, pure,
}
use flash_deals.Rpc.{ProductService}
use flash_deals.Order.State.{
  OrderWorld, OrderDb, OrdersOrder, OrdersOrderItem, pending, in_closed_tx, in_tx, commit_tx,
}
use flash_deals.Order.Queries
use flash_deals.Order.Queries.{GetOrderForUpdateRow, CancelOrderParams, find_order}
use flash_deals.Order.Service.{OrderResponse, Failure, raw, to_order_response}
use flash_deals.Order.Service.Transaction.{or_fail}
use flash_deals.Order.Service.Transaction.Any.{Unmoved, begin_tx_any, in_tx_any, commit_tx_any}
use flash_deals.Order.Service.Stock.{restore_stock}
use flash_deals.Order.Service.Status.{
  is_pending, is_cancellable, missing, forbidden, cannot_confirm, cannot_cancel, confirm_failed,
  confirm_uncommitted, cancel_failed, cancel_uncommitted, confirm_locked, confirm_checked,
  confirm_order, cancel_locked, cancel_checked, cancel_rows, cancel_order, to_restore, or_nil,
}
use flash_deals.Order.Service.Status.Checks.{
  checked, get_order_for_update_lem, confirm_order_lem, cancel_order_lem,
}
use flash_deals.Order.Service.Status.Confirm.{is_pending→eq}
use flash_deals.Order.Service.Status.CancelRows.{get_order_items_lem}
use flash_deals.Order.Lifecycle.{stored, Change, confirmed_order, cancelled_order}
use flash_deals.Order.Lifecycle.Calls.{restore_stock-Kept}
use flash_deals.Order.Lifecycle.Create.{Change-Kept, Change-Unmoved}

module _ {R : Type 0} (order_id user_id : Uuid) (w : OrderWorld R) where
  abbrev Q : OrderWorld R → Type 0
  Q w' = Change (stored w) (stored w')

  confirm_locked-Change :
      (o : OrdersOrder) (w' : OrderWorld R)
      → Unmoved w w'
      → find_order order_id w.db ≡ some o
      → o.status ≡ pending
      → Q (confirm_locked order_id w.db w').1
  unfolding confirm_locked
  confirm_locked-Change o w' s found is =
      in_tx_any Q confirm_failed w w' s (Queries.confirm_order order_id) w.db
        (λ a.
          or_fail confirm_uncommitted (commit_tx a.1)
          >> (or_nil in_closed_tx >>= λ items. pure (to_order_response a.0 items none)))
        (λ row tx w2 e t.
          let (_, same) = confirm_order_lem order_id w.db tx o row found e in
          let written : (w3 : OrderWorld R) → w3.db ≡ tx → w3.queue ≡ w.queue → Q w3 =
            λ w3 d q. confirmed_order order_id o found is (d ∙ same) q in
          commit_tx_any Q confirm_uncommitted w w2 t tx
            (λ _. or_nil in_closed_tx >>= λ items. pure (to_order_response row items none)) written
            written (Change-Unmoved w))
        (Change-Unmoved w)

  confirm_checked-Change :
      (row : GetOrderForUpdateRow) (tx : OrderDb) (w' : OrderWorld R)
      → Queries.get_order_for_update order_id w.db ≡ (ok row, tx)
      → Unmoved w w'
      → Q (confirm_checked order_id user_id (row, tx) w').1
  unfolding confirm_checked
  confirm_checked-Change row tx w' e s =
      let (o, found, _, same_status, same_tx) = get_order_for_update_lem order_id w.db tx row e in
      checked (λ p. Q p.1) (confirm_locked order_id tx) (row.user_id == user_id)
        (is_pending row.status) (cannot_confirm row.status) forbidden w'
        (λ own is.
          subst (λ db. Q (confirm_locked order_id db w').1) (sym same_tx)
            (confirm_locked-Change o w' s found (sym same_status ∙ is_pending→eq row.status is)))
        (λ f. Change-Unmoved w w' s)

  -- `ConfirmOrder`, whatever its calls do.
  pub confirm_order-Change : Q (confirm_order order_id user_id w).1
  unfolding confirm_order
  confirm_order-Change =
      begin_tx_any Q confirm_failed w w (refl, refl)
        (λ tx.
          or_fail missing (in_tx (Queries.get_order_for_update order_id) tx)
          >>= confirm_checked order_id user_id)
        (λ w1 s.
          in_tx_any Q missing w w1 s (Queries.get_order_for_update order_id) w.db
            (confirm_checked order_id user_id) confirm_checked-Change (Change-Unmoved w))
        (Change-Unmoved w)

  module _ (reason : Option String) where
    abbrev arg : CancelOrderParams
    arg = record { id = order_id; cancel_reason = reason }

    cancel_locked-Change :
        (o : OrdersOrder) (w' : OrderWorld R)
        → Unmoved w w'
        → find_order order_id w.db ≡ some o
        → is_cancellable o.status ≡ true
        → Q (cancel_locked order_id reason w.db w').1
    unfolding cancel_locked
    cancel_locked-Change o w' s found is =
        in_tx_any Q raw w w' s (Queries.get_order_items_by_order_id order_id) w.db
          (λ a. or_fail cancel_failed (in_tx (Queries.cancel_order arg) a.1) >>= λ b.
            or_fail cancel_uncommitted (commit_tx b.1) >> pure (b.0, a.0))
          (λ items tx w1 e t.
            let (_, same_tx) = get_order_items_lem order_id w.db tx items e in
            in_tx_any Q cancel_failed w w1 t (Queries.cancel_order arg) tx
              (λ b. or_fail cancel_uncommitted (commit_tx b.1) >> pure (b.0, items))
              (λ row tx' w2 e' u.
                let (_, new_tx) =
                  cancel_order_lem arg w.db tx' o row found
                    (subst (λ db. Queries.cancel_order arg db ≡ (ok row, tx')) same_tx e') in
                let written : (w3 : OrderWorld R) → w3.db ≡ tx' → w3.queue ≡ w.queue → Q w3 =
                  λ w3 d q. cancelled_order order_id reason o found is (d ∙ new_tx) q in
                commit_tx_any Q cancel_uncommitted w w2 u tx' (λ _. pure (row, items)) written
                  written (Change-Unmoved w))
              (Change-Unmoved w))
          (Change-Unmoved w)

    cancel_checked-Change :
        (row : GetOrderForUpdateRow) (tx : OrderDb) (w' : OrderWorld R)
        → Queries.get_order_for_update order_id w.db ≡ (ok row, tx)
        → Unmoved w w'
        → Q (cancel_checked order_id user_id reason (row, tx) w').1
    unfolding cancel_checked
    cancel_checked-Change row tx w' e s =
        let (o, found, _, same_status, same_tx) = get_order_for_update_lem order_id w.db tx row e in
        checked (λ p. Q p.1) (cancel_locked order_id reason tx) (row.user_id == user_id)
          (is_cancellable row.status) (cannot_cancel row.status) forbidden w'
          (λ own is.
            subst (λ db. Q (cancel_locked order_id reason db w').1) (sym same_tx)
              (cancel_locked-Change o w' s found (ap is_cancellable (sym same_status) ∙ is)))
          (λ f. Change-Unmoved w w' s)

    cancel_rows-Change : Q (cancel_rows order_id user_id reason w).1
    unfolding cancel_rows
    cancel_rows-Change =
        begin_tx_any Q cancel_failed w w (refl, refl)
          (λ tx.
            or_fail missing (in_tx (Queries.get_order_for_update order_id) tx)
            >>= cancel_checked order_id user_id reason)
          (λ w1 s.
            in_tx_any Q missing w w1 s (Queries.get_order_for_update order_id) w.db
              (cancel_checked order_id user_id reason) cancel_checked-Change (Change-Unmoved w))
          (Change-Unmoved w)

    -- `CancelOrder`, whatever its calls do.
    pub cancel_order-Change :
        (ids : UuidText) (svc : ProductService R)
        → Q (cancel_order ids svc order_id user_id reason w).1
    unfolding cancel_order
    cancel_order-Change ids svc = go (cancel_rows order_id user_id reason w) cancel_rows-Change
      where
        go :
            (p : Result Failure (OrdersOrder × List OrdersOrderItem) × OrderWorld R)
            → Q p.1
            → (let a : Result Failure OrderResponse × OrderWorld R = elim p.0 [
              | ok r ↦ (
                ok (to_order_response r.0 r.1 none),
                restore_stock ids svc (map to_restore r.1) p.1,
              )
              | err e ↦ (err e, p.1)
            ] in
                Q a.1)
        go (ok r, w') c =
            Change-Kept (stored w) w' (restore_stock ids svc (map to_restore r.1) w') c
              (restore_stock-Kept ids svc w' (map to_restore r.1) w' (refl, refl, refl))
        go (err e, w') c = c
