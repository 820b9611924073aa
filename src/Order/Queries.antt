-- ===== src/Order/Queries.antt =====
-- The SQL statements of services/order/go/internal/db/query.sql.go that create, confirm and cancel
-- orders, on the tables, with the constraints of services/order/db/schema.sql.
pub mod WithId
pub mod Lists
pub mod Joined
use Prim.Native.String.{count}
use flash_deals.Base.{
  ℕ, ◌+◌, ◌==◌, leb, ℤ, pos, leb_ℤ, String, Bool, true, ◌&&◌, Option, none, some, List, [], ◌∷◌,
  ◌++◌, Uuid, ok, err, Exec, find_by, update_by, sort_by, if◌then◌else◌,
}
use flash_deals.Order.State.{
  OrderStatus, confirmed, cancelled, OrdersOrder, OrdersOrderItem, OrderDb, Error, no_rows, driver,
}

abbrev pub violation : Error
violation = driver "new row violates a constraint"

-- A value of `VARCHAR(n)`, or NULL.
abbrev pub fits? : ℕ → Option String → Bool
fits? n none = true
fits? n (some s) = leb (count s) n

abbrev pub order_id : OrdersOrder → Uuid
order_id o = o.id

abbrev pub find_order : Uuid → OrderDb → Option OrdersOrder
find_order id db = find_by order_id id db.orders

pub record CreateOrderParams : Type 0 where
  pub user_id : Uuid
  pub total_amount : ℤ
  pub status : OrderStatus
  pub recipient_name : Option String
  pub phone : Option String
  pub address : Option String
  pub address_detail : Option String
  pub postal_code : Option String

abbrev pub order_row : Uuid → ℕ → CreateOrderParams → OrdersOrder
order_row id now arg = record {
  id = id;
  user_id = arg.user_id;
  total_amount = arg.total_amount;
  status = arg.status;
  recipient_name = arg.recipient_name;
  phone = arg.phone;
  address = arg.address;
  address_detail = arg.address_detail;
  postal_code = arg.postal_code;
  cancelled_at = none;
  cancel_reason = none;
  created_at = now;
  updated_at = now;
}

-- The CHECK and the column types of the table `orders.orders`.
abbrev pub valid_order : CreateOrderParams → Bool
valid_order arg =
    leb_ℤ (pos 0) arg.total_amount
    && fits? 50 arg.recipient_name
    && fits? 20 arg.phone
    && fits? 200 arg.address
    && fits? 100 arg.address_detail
    && fits? 10 arg.postal_code

unfoldable pub create_order : CreateOrderParams → Exec OrderDb Error OrdersOrder
create_order arg db =
    let row = order_row db.next_id db.clock arg in
    if valid_order arg
    then (ok row, record db { orders = row ∷ db.orders; next_id = db.next_id + 1 })
    else (err violation, db)

pub record CreateOrderItemParams : Type 0 where
  pub order_id : Uuid
  pub product_id : Uuid
  pub deal_id : Option Uuid
  pub product_name : String
  pub quantity : ℤ
  pub unit_price : ℤ
  pub subtotal : ℤ

abbrev pub item_row : Uuid → ℕ → CreateOrderItemParams → OrdersOrderItem
item_row id now arg = record {
  id = id;
  order_id = arg.order_id;
  product_id = arg.product_id;
  deal_id = arg.deal_id;
  product_name = arg.product_name;
  quantity = arg.quantity;
  unit_price = arg.unit_price;
  subtotal = arg.subtotal;
  created_at = now;
}

-- The CHECKs of the table `orders.order_items`.
abbrev pub valid_item : CreateOrderItemParams → Bool
valid_item arg =
    leb_ℤ (pos 1) arg.quantity
    && leb_ℤ (pos 0) arg.unit_price
    && leb_ℤ (pos 0) arg.subtotal
    && leb (count arg.product_name) 200

-- The order must exist: a foreign key.
unfoldable pub create_order_item : CreateOrderItemParams → Exec OrderDb Error OrdersOrderItem
create_order_item arg db = elim (find_order arg.order_id db) [
  | none ↦ (err violation, db)
  | some _ ↦
      let row = item_row db.next_id db.clock arg in
      if valid_item arg
      then (
        ok row,
        record db { order_items = db.order_items ++ row ∷ []; next_id = db.next_id + 1 },
      )
      else (err violation, db)
]

unfoldable pub get_order_by_id : Uuid → Exec OrderDb Error OrdersOrder
get_order_by_id id db = (elim (find_order id db) [ none ↦ err no_rows | some o ↦ ok o ], db)

pub record GetOrderForUpdateRow : Type 0 where
  pub id : Uuid
  pub user_id : Uuid
  pub status : OrderStatus

unfoldable pub get_order_for_update : Uuid → Exec OrderDb Error GetOrderForUpdateRow
get_order_for_update id db = elim (find_order id db) [
  | none ↦ (err no_rows, db)
  | some o ↦ (ok (record { id = o.id; user_id = o.user_id; status = o.status }), db)
]

-- The items of an order. The rows are kept in the order of their `created_at`.
-- The items of an order, in the order of the table.
abbrev pub own_items : Uuid → List OrdersOrderItem → List OrdersOrderItem
own_items id [] = []
own_items id (i ∷ is) =
    let others = own_items id is in if i.order_id == id then i ∷ others else others

-- `ORDER BY created_at`
abbrev pub made_before : OrdersOrderItem → OrdersOrderItem → Bool
made_before i j = leb i.created_at j.created_at

abbrev pub items_of : Uuid → List OrdersOrderItem → List OrdersOrderItem
items_of id is = sort_by made_before (own_items id is)

unfoldable pub get_order_items_by_order_id : Uuid → Exec OrderDb Error (List OrdersOrderItem)
get_order_items_by_order_id id db = (ok (items_of id db.order_items), db)

abbrev pub confirmed_row : ℕ → OrdersOrder → OrdersOrder
confirmed_row now o = record o { status = confirmed; updated_at = now }

unfoldable pub confirm_order : Uuid → Exec OrderDb Error OrdersOrder
confirm_order id db = elim (find_order id db) [
  | none ↦ (err no_rows, db)
  | some o ↦ (
    ok (confirmed_row db.clock o),
    record db { orders = update_by order_id id (confirmed_row db.clock) db.orders },
  )
]

pub record CancelOrderParams : Type 0 where
  pub id : Uuid
  pub cancel_reason : Option String

abbrev pub cancelled_row : ℕ → Option String → OrdersOrder → OrdersOrder
cancelled_row now reason o = record o {
  status = cancelled;
  cancelled_at = some now;
  cancel_reason = reason;
  updated_at = now;
}

unfoldable pub cancel_order : CancelOrderParams → Exec OrderDb Error OrdersOrder
cancel_order arg db = elim (find_order arg.id db) [
  | none ↦ (err no_rows, db)
  | some o ↦
      let row = cancelled_row db.clock arg.cancel_reason in
      (ok (row o), record db { orders = update_by order_id arg.id row db.orders })
]
