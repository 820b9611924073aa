-- ===== src/Order/Service/Create.antt =====
-- `CreateOrder` of services/order/go/internal/service/order.go: the prices, the stock, and the order
-- in one transaction.
pub mod Insert
pub mod Commit
pub mod Taken
pub mod Atomic
use Prim.Native.String.{◌++◌ as append}
use flash_deals.Base.{
  pos, ℤ, String, Option, none, some, List, [], ◌∷◌, Uuid, UuidText, ok, err, Exec, pure, ◌>>=◌,
  ◌>>◌,
}
use flash_deals.Rpc.{ProductService}
use flash_deals.Order.State.{
  OrderWorld, OrderDb, OrdersOrder, OrdersOrderItem, pending, Error, error_text, begin_tx, in_tx,
  commit_tx,
}
use flash_deals.Order.Queries
use flash_deals.Order.Queries.{CreateOrderParams, CreateOrderItemParams}
use flash_deals.Order.Service.Transaction.{or_fail}
use flash_deals.Order.Service.{
  OrderItemRequest, ShippingAddress, OrderResponse, Failure, service_error, to_order_response,
}
use flash_deals.Order.Service.Pricing.{OrderItemData, price_items}
use flash_deals.Order.Service.Stock.{DecreasedItem, decrease_items, restore_stock}

-- A field of the address, NULL without an address.
abbrev field : (ShippingAddress → String) → Option ShippingAddress → Option String
field f none = none
field f (some a) = some (f a)

abbrev detail : Option ShippingAddress → Option String
detail none = none
detail (some a) = a.address_detail

abbrev pub create_params : Uuid → ℤ → Option ShippingAddress → CreateOrderParams
create_params user_id total shipping = record {
  user_id = user_id;
  total_amount = total;
  status = pending;
  recipient_name = field (λ a. a.recipient_name) shipping;
  phone = field (λ a. a.phone) shipping;
  address = field (λ a. a.address) shipping;
  address_detail = detail shipping;
  postal_code = field (λ a. a.postal_code) shipping;
}

abbrev pub item_params : Uuid → OrderItemData → CreateOrderItemParams
item_params order_id d = record {
  order_id = order_id;
  product_id = d.product_id;
  deal_id = d.deal_id;
  product_name = d.product_name;
  quantity = d.quantity;
  unit_price = d.unit_price;
  subtotal = d.subtotal;
}

abbrev pub create_failed : String → Failure
create_failed text = service_error "CREATE_FAILED" text 500

module _ {R : Type 0} where
  -- The loop over the items inside the transaction.
  unfoldable pub insert_items :
      Uuid
      → List OrderItemData
      → OrderDb
      → Exec (OrderWorld R) Error (List OrdersOrderItem × OrderDb)
  insert_items order_id [] tx = pure ([], tx)
  insert_items order_id (d ∷ ds) tx = do
    (row, tx') ← in_tx (Queries.create_order_item (item_params order_id d)) tx
    (rows, tx'') ← insert_items order_id ds tx'
    pure (row ∷ rows, tx'')

  -- Step 3: each failure has a message of its own.
  unfoldable pub insert_order :
      CreateOrderParams
      → List OrderItemData
      → Exec (OrderWorld R) Failure (OrdersOrder × List OrdersOrderItem)
  unfolding insert_items
  insert_order params items = do
    tx ← or_fail (λ _. create_failed "주문 생성에 실패했습니다.") begin_tx
    (order, tx') ←
        or_fail (λ e. create_failed (append "주문 생성에 실패했습니다: " (error_text e)))
          (in_tx (Queries.create_order params) tx)
    (rows, tx'') ←
        or_fail (λ _. create_failed "주문 아이템 생성에 실패했습니다.") (insert_items order.id items tx')
    or_fail (λ _. create_failed "주문 커밋에 실패했습니다.") (commit_tx tx'')
    pure (order, rows)

module _ {R : Type 0} (ids : UuidText) (svc : ProductService R) where
  -- A failure of step 3 gives the stock back.
  unfoldable pub insert_or_restore :
      Uuid
      → ℤ
      → Option ShippingAddress
      → List OrderItemData
      → List DecreasedItem
      → Exec (OrderWorld R) Failure OrderResponse
  unfolding insert_order
  insert_or_restore user_id total shipping items taken w =
      let (r, w') = insert_order (create_params user_id total shipping) items w in
      elim r [
        | ok (order, rows) ↦ (ok (to_order_response order rows shipping), w')
        | err e ↦ (err e, restore_stock ids svc taken w')
      ]

  unfoldable pub create_order :
      Uuid
      → List OrderItemRequest
      → Option ShippingAddress
      → Exec (OrderWorld R) Failure OrderResponse
  unfolding insert_or_restore
  create_order user_id items shipping = do
    (priced, total) ← price_items ids svc items (pos 0)
    taken ← decrease_items ids svc items []
    insert_or_restore user_id total shipping priced taken
