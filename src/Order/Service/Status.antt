-- ===== src/Order/Service/Status.antt =====
-- `GetOrder`, `ConfirmOrder` and `CancelOrder` of services/order/go/internal/service/order.go.
pub mod CancelRows
pub mod Cancel
pub mod Read
pub mod Checks
pub mod Confirm
use Prim.Native.String.{◌++◌ as append}
use flash_deals.Base.{
  ◌==◌, String, Bool, true, false, ◌&&◌, not, Option, none, some, List, [], ◌∷◌, Uuid, UuidText,
  Result, ok, err, Exec, pure, raise, ◌>>=◌, ◌>>◌, map, if◌then◌else◌,
}
use flash_deals.Rpc.{ProductService}
use flash_deals.Order.State.{
  OrderWorld, OrderDb, OrderStatus, pending, confirmed, OrdersOrder, OrdersOrderItem, Error,
  no_rows, status_text, on_db, in_closed_tx, begin_tx, in_tx, commit_tx,
}
use flash_deals.Order.Queries
use flash_deals.Order.Queries.{GetOrderForUpdateRow}
use flash_deals.Order.Service.Transaction.{or_fail}
use flash_deals.Order.Service.{OrderResponse, Failure, raw, service_error, to_order_response}
use flash_deals.Order.Service.Stock.{DecreasedItem, restore_stock}

abbrev pub not_found : Failure
not_found = service_error "NOT_FOUND" "주문을 찾을 수 없습니다." 404

abbrev pub forbidden : Failure
forbidden = service_error "FORBIDDEN" "접근 권한이 없습니다." 403

-- `if err == pgx.ErrNoRows { ... }; return nil, err`
abbrev pub missing : Error → Failure
missing no_rows = not_found
missing e = raw e

-- `items, _ := ...`: the nil list on an error
abbrev pub or_nil : {S A : Type 0} → Exec S Error (List A) → Exec S Failure (List A)
or_nil m w = let (r, w') = m w in (ok (elim r [ ok a ↦ a | err _ ↦ [] ]), w')

abbrev pub is_pending : OrderStatus → Bool
is_pending pending = true
is_pending _ = false

abbrev pub is_cancellable : OrderStatus → Bool
is_cancellable pending = true
is_cancellable confirmed = true
is_cancellable _ = false

abbrev pub confirm_failed : Error → Failure
confirm_failed _ = service_error "CONFIRM_FAILED" "주문 확정에 실패했습니다." 500

abbrev pub confirm_uncommitted : Error → Failure
confirm_uncommitted _ = service_error "CONFIRM_FAILED" "주문 확정 커밋에 실패했습니다." 500

abbrev pub cannot_confirm : OrderStatus → Failure
cannot_confirm s = service_error "CANNOT_CONFIRM" (append "확정할 수 없는 주문 상태입니다: " (status_text s)) 400

module _ {R : Type 0} where
  unfoldable pub get_order : Uuid → Uuid → Exec (OrderWorld R) Failure OrderResponse
  get_order order_id user_id = do
    order ← or_fail missing (on_db (Queries.get_order_by_id order_id))
    if order.user_id == user_id
        then (do
          items ← or_fail raw (on_db (Queries.get_order_items_by_order_id order.id))
          pure (to_order_response order items none))
        else raise forbidden

  -- The update and the commit, after the checks.
  unfoldable pub confirm_locked : Uuid → OrderDb → Exec (OrderWorld R) Failure OrderResponse
  confirm_locked order_id tx = do
    (order, tx') ← or_fail confirm_failed (in_tx (Queries.confirm_order order_id) tx)
    or_fail confirm_uncommitted (commit_tx tx')
    items ← or_nil in_closed_tx
    pure (to_order_response order items none)

  -- The checks under the lock.
  unfoldable pub confirm_checked :
      Uuid → Uuid → GetOrderForUpdateRow × OrderDb → Exec (OrderWorld R) Failure OrderResponse
  unfolding confirm_locked
  confirm_checked order_id user_id (order, tx) =
      if order.user_id == user_id
      then (if is_pending order.status
          then confirm_locked order_id tx
          else raise (cannot_confirm order.status))
      else raise forbidden

  unfoldable pub confirm_order : Uuid → Uuid → Exec (OrderWorld R) Failure OrderResponse
  unfolding confirm_checked
  confirm_order order_id user_id = do
    tx ← or_fail confirm_failed begin_tx
    locked ← or_fail missing (in_tx (Queries.get_order_for_update order_id) tx)
    confirm_checked order_id user_id locked

abbrev pub cancel_failed : Error → Failure
cancel_failed _ = service_error "CANCEL_FAILED" "주문 취소에 실패했습니다." 500

abbrev pub cancel_uncommitted : Error → Failure
cancel_uncommitted _ = service_error "CANCEL_FAILED" "주문 취소 커밋에 실패했습니다." 500

abbrev pub cannot_cancel : OrderStatus → Failure
cannot_cancel s = service_error "CANNOT_CANCEL" (append "취소할 수 없는 주문 상태입니다: " (status_text s)) 400

abbrev pub to_restore : OrdersOrderItem → DecreasedItem
to_restore item = record { product_id = item.product_id; quantity = item.quantity }

module _ {R : Type 0} where
  -- The queries and the commit, after the checks.
  unfoldable pub cancel_locked :
      Uuid
      → Option String
      → OrderDb
      → Exec (OrderWorld R) Failure (OrdersOrder × List OrdersOrderItem)
  cancel_locked order_id reason tx = do
    (items, tx') ← or_fail raw (in_tx (Queries.get_order_items_by_order_id order_id) tx)
    (order, tx'') ←
        or_fail cancel_failed
          (in_tx (Queries.cancel_order (record { id = order_id; cancel_reason = reason })) tx')
    or_fail cancel_uncommitted (commit_tx tx'')
    pure (order, items)

  -- The checks under the lock.
  unfoldable pub cancel_checked :
      Uuid
      → Uuid
      → Option String
      → GetOrderForUpdateRow × OrderDb
      → Exec (OrderWorld R) Failure (OrdersOrder × List OrdersOrderItem)
  unfolding cancel_locked
  cancel_checked order_id user_id reason (order, tx) =
      if order.user_id == user_id
      then (if is_cancellable order.status
          then cancel_locked order_id reason tx
          else raise (cannot_cancel order.status))
      else raise forbidden

  -- The transaction of `CancelOrder`.
  unfoldable pub cancel_rows :
      Uuid → Uuid → Option String → Exec (OrderWorld R) Failure (OrdersOrder × List OrdersOrderItem)
  unfolding cancel_checked
  cancel_rows order_id user_id reason = do
    tx ← or_fail cancel_failed begin_tx
    locked ← or_fail missing (in_tx (Queries.get_order_for_update order_id) tx)
    cancel_checked order_id user_id reason locked

module _ {R : Type 0} (ids : UuidText) (svc : ProductService R) where
  -- The stock goes back after the commit, whatever the answers are.
  unfoldable pub cancel_order :
      Uuid → Uuid → Option String → Exec (OrderWorld R) Failure OrderResponse
  unfolding cancel_rows
  cancel_order order_id user_id reason w =
      let (r, w') = cancel_rows order_id user_id reason w in
      elim r [
        | ok (order, items) ↦ (
          ok (to_order_response order items none),
          restore_stock ids svc (map to_restore items) w',
        )
        | err e ↦ (err e, w')
      ]
