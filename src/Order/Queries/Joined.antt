-- ===== src/Order/Queries/Joined.antt =====
-- The queries of services/order/go/internal/db/query.sql.go that read orders with their items at once,
-- by a LEFT JOIN. Nothing calls them.
pub mod Grouped
use flash_deals.Base.{
  ℕ, ℤ, ◌==◌, ltb, leb, String, Bool, true, false, Option, none, some, List, [], ◌∷◌, map, Uuid, ok,
  err, Exec, filter_by, page, sort_by, flat_map, if◌then◌else◌,
}
use flash_deals.Order.State.{OrderStatus, OrdersOrder, OrdersOrderItem, OrderDb, Error}
use flash_deals.Order.Queries.{items_of}
use flash_deals.Order.Queries.Lists.{is_of, is_of_with, is_order_status, or_bad_page, bad_status}

-- An item's columns are NULL for an order without items.
pub record ListOrdersWithItemsByUserIdRow : Type 0 where
  pub o_id : Uuid
  pub o_user_id : Uuid
  pub o_total_amount : ℤ
  pub o_status : OrderStatus
  pub o_recipient_name : Option String
  pub o_phone : Option String
  pub o_address : Option String
  pub o_address_detail : Option String
  pub o_postal_code : Option String
  pub o_cancelled_at : Option ℕ
  pub o_cancel_reason : Option String
  pub o_created_at : ℕ
  pub o_updated_at : ℕ
  pub i_id : Option Uuid
  pub i_product_id : Option Uuid
  pub i_deal_id : Option Uuid
  pub i_product_name : Option String
  pub i_quantity : Option ℤ
  pub i_unit_price : Option ℤ
  pub i_subtotal : Option ℤ
  pub i_created_at : Option ℕ

-- The same columns, under a name of its own.
abbrev pub ListOrdersWithItemsByUserIdAndStatusRow : Type 0
ListOrdersWithItemsByUserIdAndStatusRow = ListOrdersWithItemsByUserIdRow

-- A column of the item, if there is one.
abbrev column : {A : Type 0} → (OrdersOrderItem → A) → Option OrdersOrderItem → Option A
column f none = none
column f (some i) = some (f i)

abbrev deal_column : Option OrdersOrderItem → Option Uuid
deal_column none = none
deal_column (some i) = i.deal_id

abbrev pub joined : OrdersOrder → Option OrdersOrderItem → ListOrdersWithItemsByUserIdRow
joined o i = record {
  o_id = o.id;
  o_user_id = o.user_id;
  o_total_amount = o.total_amount;
  o_status = o.status;
  o_recipient_name = o.recipient_name;
  o_phone = o.phone;
  o_address = o.address;
  o_address_detail = o.address_detail;
  o_postal_code = o.postal_code;
  o_cancelled_at = o.cancelled_at;
  o_cancel_reason = o.cancel_reason;
  o_created_at = o.created_at;
  o_updated_at = o.updated_at;
  i_id = column (λ r. r.id) i;
  i_product_id = column (λ r. r.product_id) i;
  i_deal_id = deal_column i;
  i_product_name = column (λ r. r.product_name) i;
  i_quantity = column (λ r. r.quantity) i;
  i_unit_price = column (λ r. r.unit_price) i;
  i_subtotal = column (λ r. r.subtotal) i;
  i_created_at = column (λ r. r.created_at) i;
}

-- `LEFT JOIN`, for one order: its items, or one row of NULLs.
abbrev pub left_join : OrdersOrder → List OrdersOrderItem → List ListOrdersWithItemsByUserIdRow
left_join o [] = joined o none ∷ []
left_join o (i ∷ is) = joined o (some i) ∷ map (λ j. joined o (some j)) is

-- A join has no order; here the items of one order stand as the query for them has them, which the sort of
-- the whole keeps where times are equal.
abbrev pub rows_of_order : OrderDb → OrdersOrder → List ListOrdersWithItemsByUserIdRow
rows_of_order db o = left_join o (items_of o.id db.order_items)

-- NULL comes last.
abbrev pub not_after : Option ℕ → Option ℕ → Bool
not_after (some a) (some b) = leb a b
not_after (some a) none = true
not_after none (some b) = false
not_after none none = true

-- `ORDER BY o.created_at DESC, i.created_at`
abbrev pub comes_before : ListOrdersWithItemsByUserIdRow → ListOrdersWithItemsByUserIdRow → Bool
comes_before r s =
    if ltb s.o_created_at r.o_created_at
    then true
    else if r.o_created_at == s.o_created_at
    then not_after r.i_created_at s.i_created_at
    else false

pub record ListOrdersWithItemsByUserIdParams : Type 0 where
  pub user_id : Uuid
  pub limit : ℤ
  pub offset : ℤ

unfoldable pub list_orders_with_items_by_user_id :
    ListOrdersWithItemsByUserIdParams → Exec OrderDb Error (List ListOrdersWithItemsByUserIdRow)
list_orders_with_items_by_user_id arg db = (
  or_bad_page (
      page arg.limit arg.offset (
        sort_by comes_before
          (flat_map (rows_of_order db) (filter_by (is_of arg.user_id) db.orders)))),
  db,
)

pub record ListOrdersWithItemsByUserIdAndStatusParams : Type 0 where
  pub user_id : Uuid
  pub status : String
  pub limit : ℤ
  pub offset : ℤ

unfoldable pub list_orders_with_items_by_user_id_and_status :
    ListOrdersWithItemsByUserIdAndStatusParams
    → Exec OrderDb Error (List ListOrdersWithItemsByUserIdAndStatusRow)
list_orders_with_items_by_user_id_and_status arg db =
    if is_order_status arg.status
    then (
      or_bad_page (
          page arg.limit arg.offset (
            sort_by comes_before (
              flat_map (rows_of_order db)
                (filter_by (is_of_with arg.user_id arg.status) db.orders)))),
      db,
    )
    else (err bad_status, db)
