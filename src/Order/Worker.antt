-- ===== src/Order/Worker.antt =====
-- The worker that writes the queued orders: services/order/go/internal/queue/worker.go.
pub mod Processed
pub mod Agreement
pub mod Drains
pub mod Writes
pub mod Arrives
use flash_deals.Base.{
  ℤ, pos, add32, mul32, String, Option, none, some, List, [], ◌∷◌, map, Uuid, ok, err, Exec, ◌>>=◌,
  ◌>>◌, pure,
}
use flash_deals.Order.State.{
  OrderWorld, OrderDb, OrderItemReq, ShippingAddr, OrderRequest, confirmed, begin_tx, in_tx,
  commit_tx,
}
use flash_deals.Order.Queries.WithId.{CreateOrderWithIdParams, create_order_with_id}
use flash_deals.Order.Queue.{dequeue}
use flash_deals.Order.Service.{Failure, raw}
use flash_deals.Order.Service.Transaction.{or_fail}
use flash_deals.Order.Service.Pricing.{OrderItemData}
use flash_deals.Order.Service.Create.{insert_items}

-- The loop that adds up the amounts.
abbrev pub order_total : ℤ → List OrderItemReq → ℤ
order_total total [] = total
order_total total (item ∷ items) =
    order_total (add32 total (mul32 item.unit_price item.quantity)) items

abbrev addr_field : (ShippingAddr → String) → Option ShippingAddr → Option String
addr_field f none = none
addr_field f (some a) = some (f a)

abbrev addr_detail : Option ShippingAddr → Option String
addr_detail none = none
addr_detail (some a) = a.address_detail

-- The stock has been taken, so the order is confirmed at once.
abbrev pub worker_params : OrderRequest → CreateOrderWithIdParams
worker_params req = record {
  id = req.order_id;
  user_id = req.user_id;
  total_amount = order_total (pos 0) req.items;
  status = confirmed;
  recipient_name = addr_field (λ a. a.recipient_name) req.shipping_address;
  phone = addr_field (λ a. a.phone) req.shipping_address;
  address = addr_field (λ a. a.address) req.shipping_address;
  address_detail = addr_detail req.shipping_address;
  postal_code = addr_field (λ a. a.postal_code) req.shipping_address;
}

-- What the row of an item says.
abbrev pub requested_line : OrderItemReq → OrderItemData
requested_line item = record {
  product_id = item.product_id;
  deal_id = item.deal_id;
  product_name = item.product_name;
  quantity = item.quantity;
  unit_price = item.unit_price;
  subtotal = mul32 item.unit_price item.quantity;
}

module _ {R : Type 0} where
  -- The loop over the items is that of `CreateOrder`: a query for each, and an early return.
  unfoldable pub process_order : OrderRequest → Exec (OrderWorld R) Failure (Unit {0})
  process_order req = do
    tx ← or_fail raw begin_tx
    (order, tx') ← or_fail raw (in_tx (create_order_with_id (worker_params req)) tx)
    (rows, tx'') ← or_fail raw (insert_items order.id (map requested_line req.items) tx')
    or_fail raw (commit_tx tx'')
    pure tt

  -- One turn of the loop of `Start`. A message whose order fails is dropped.
  unfoldable pub work : OrderWorld R → OrderWorld R
  unfolding process_order
  work w = let (r, w') = dequeue w in elim r [ ok req ↦ (process_order req w').1 | err _ ↦ w' ]
