-- ===== src/Order/Queries/Lists.antt =====
-- The lists and counts of services/order/go/internal/db/query.sql.go, and its update of a status.
use text.Mathlib.Text.{◌==◌ as str_eq}
use flash_deals.Base.{
  ℕ, ℤ, pos, ◌==◌, String, Bool, ◌&&◌, ◌||◌, Option, none, some, List, Uuid, Result, ok, err, Exec,
  length, filter_by, order_by_desc, page, update_by, if◌then◌else◌,
}
use flash_deals.Order.State.{OrderStatus, OrdersOrder, OrderDb, Error, driver, no_rows, status_text}
use flash_deals.Order.Queries.{order_id, find_order}

abbrev pub bad_page : Error
bad_page = driver "LIMIT and OFFSET must not be negative"

-- PostgreSQL refuses a text that is no value of the enumeration `orders.order_status`.
abbrev pub bad_status : Error
bad_status = driver "invalid input value for enum orders.order_status"

abbrev pub is_order_status : String → Bool
is_order_status t =
    str_eq t "pending"
    || str_eq t "confirmed"
    || str_eq t "shipped"
    || str_eq t "delivered"
    || str_eq t "cancelled"

abbrev pub or_bad_page : {A : Type 0} → Option (List A) → Result Error (List A)
or_bad_page none = err bad_page
or_bad_page (some rows) = ok rows

abbrev pub created : OrdersOrder → ℕ
created o = o.created_at

abbrev pub is_of : Uuid → OrdersOrder → Bool
is_of user_id o = o.user_id == user_id

abbrev pub is_of_with : Uuid → String → OrdersOrder → Bool
is_of_with user_id status o = o.user_id == user_id && str_eq (status_text o.status) status

unfoldable pub count_orders_by_user_id : Uuid → Exec OrderDb Error ℤ
count_orders_by_user_id user_id db = (ok (pos (length (filter_by (is_of user_id) db.orders))), db)

pub record CountOrdersByUserIdAndStatusParams : Type 0 where
  pub user_id : Uuid
  pub status : String

unfoldable pub count_orders_by_user_id_and_status :
    CountOrdersByUserIdAndStatusParams → Exec OrderDb Error ℤ
count_orders_by_user_id_and_status arg db =
    if is_order_status arg.status
    then (ok (pos (length (filter_by (is_of_with arg.user_id arg.status) db.orders))), db)
    else (err bad_status, db)

pub record ListOrdersByUserIdParams : Type 0 where
  pub user_id : Uuid
  pub limit : ℤ
  pub offset : ℤ

unfoldable pub list_orders_by_user_id :
    ListOrdersByUserIdParams → Exec OrderDb Error (List OrdersOrder)
list_orders_by_user_id arg db = (
  or_bad_page
      (page arg.limit arg.offset (order_by_desc created (filter_by (is_of arg.user_id) db.orders))),
  db,
)

pub record ListOrdersByUserIdAndStatusParams : Type 0 where
  pub user_id : Uuid
  pub status : String
  pub limit : ℤ
  pub offset : ℤ

unfoldable pub list_orders_by_user_id_and_status :
    ListOrdersByUserIdAndStatusParams → Exec OrderDb Error (List OrdersOrder)
list_orders_by_user_id_and_status arg db =
    if is_order_status arg.status
    then (
      or_bad_page (
          page arg.limit arg.offset
            (order_by_desc created (filter_by (is_of_with arg.user_id arg.status) db.orders))),
      db,
    )
    else (err bad_status, db)

pub record UpdateOrderStatusParams : Type 0 where
  pub id : Uuid
  pub status : OrderStatus

-- Nothing calls it: its status is one of the five.
unfoldable pub update_order_status : UpdateOrderStatusParams → Exec OrderDb Error OrdersOrder
update_order_status arg db = elim (find_order arg.id db) [
  | none ↦ (err no_rows, db)
  | some o ↦
      let row : OrdersOrder → OrdersOrder =
        (λ o'. record o' { status = arg.status; updated_at = db.clock }) in
      (ok (row o), record db { orders = update_by order_id arg.id row db.orders })
]
