-- ===== src/Order/Queries/WithId.antt =====
-- `CreateOrderWithID` of services/order/go/internal/db/query.sql.go, for an order whose identifier is
-- given; the primary key refuses one that is there.
use flash_deals.Base.{ℤ, String, Option, none, some, ◌∷◌, Uuid, ok, err, Exec, if◌then◌else◌}
use flash_deals.Order.State.{OrderStatus, OrdersOrder, OrderDb, Error}
use flash_deals.Order.Queries.{CreateOrderParams, find_order, order_row, valid_order, violation}

pub record CreateOrderWithIdParams : Type 0 where
  pub id : Uuid
  pub user_id : Uuid
  pub total_amount : ℤ
  pub status : OrderStatus
  pub recipient_name : Option String
  pub phone : Option String
  pub address : Option String
  pub address_detail : Option String
  pub postal_code : Option String

-- The columns without the identifier.
abbrev pub columns : CreateOrderWithIdParams → CreateOrderParams
columns arg = record {
  user_id = arg.user_id;
  total_amount = arg.total_amount;
  status = arg.status;
  recipient_name = arg.recipient_name;
  phone = arg.phone;
  address = arg.address;
  address_detail = arg.address_detail;
  postal_code = arg.postal_code;
}

unfoldable pub create_order_with_id : CreateOrderWithIdParams → Exec OrderDb Error OrdersOrder
create_order_with_id arg db = elim (find_order arg.id db) [
  | some _ ↦ (err violation, db)
  | none ↦
      let row = order_row arg.id db.clock (columns arg) in
      if valid_order (columns arg)
      then (ok row, record db { orders = row ∷ db.orders })
      else (err violation, db)
]
