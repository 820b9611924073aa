-- ===== src/Order/Service/Async.antt =====
-- `AsyncCreateOrder` of services/order/go/internal/service/order.go: the prices and the stock as in
-- `CreateOrder`, and a message for the worker in place of the order's rows.
pub mod Sent
pub mod Queued
use flash_deals.Base.{
  ℕ, ℤ, pos, mul32, Bool, Option, none, some, List, [], map, Uuid, UuidText, ◌+◌, ok, err, Exec,
  raise, ◌>>=◌, if◌then◌else◌,
}
use flash_deals.Rpc.{ProductService}
use flash_deals.Order.State.{OrderWorld, OrderItemReq, ShippingAddr, OrderRequest}
use flash_deals.Order.Queue.{enqueue}
use flash_deals.Order.Service.{
  OrderItemRequest, OrderItemResponse, ShippingAddress, OrderResponse, Failure, service_error,
}
use flash_deals.Order.Service.Pricing.{OrderItemData, price_items}
use flash_deals.Order.Service.Stock.{DecreasedItem, decrease_items, restore_stock}

-- A priced item, as the message has it.
abbrev pub item_req : OrderItemData → OrderItemReq
item_req d = record {
  product_id = d.product_id;
  deal_id = d.deal_id;
  quantity = d.quantity;
  product_name = d.product_name;
  unit_price = d.unit_price;
}

abbrev shipping_addr : Option ShippingAddress → Option ShippingAddr
shipping_addr none = none
shipping_addr (some a) = some (record {
  recipient_name = a.recipient_name;
  phone = a.phone;
  address = a.address;
  address_detail = a.address_detail;
  postal_code = a.postal_code;
})

abbrev pub order_request :
    Uuid → Uuid → List OrderItemData → Option ShippingAddress → ℕ → OrderRequest
order_request order_id user_id priced shipping now = record {
  order_id = order_id;
  user_id = user_id;
  items = map item_req priced;
  shipping_address = shipping_addr shipping;
  created_at = now;
}

-- The answer to the caller. Its items have no identifier yet: that of zeros.
abbrev queued_item : OrderItemReq → OrderItemResponse
queued_item item = record {
  id = 0;
  product_id = item.product_id;
  deal_id = item.deal_id;
  product_name = item.product_name;
  quantity = item.quantity;
  unit_price = item.unit_price;
  subtotal = mul32 item.unit_price item.quantity;
}

abbrev pub queued_response : OrderRequest → ℤ → Option ShippingAddress → OrderResponse
queued_response req total shipping = record {
  id = req.order_id;
  user_id = req.user_id;
  items = map queued_item req.items;
  total_amount = total;
  status = "processing";
  shipping_address = shipping;
  cancelled_at = none;
  cancel_reason = none;
  created_at = req.created_at;
  updated_at = req.created_at;
}

module _ {R : Type 0} where
  -- `uuid.New()`
  abbrev pub with_new_id : OrderWorld R → OrderWorld R
  with_new_id w = record w { db = record w.db { next_id = w.db.next_id + 1 } }

module _ {R : Type 0} (ids : UuidText) (svc : ProductService R) where
  -- Steps 4 and 5. A failure of the queue gives the stock back.
  unfoldable pub enqueue_or_restore :
      Uuid
      → Uuid
      → ℤ
      → Option ShippingAddress
      → List OrderItemData
      → List DecreasedItem
      → Exec (OrderWorld R) Failure OrderResponse
  enqueue_or_restore order_id user_id total shipping priced taken w =
      let req : OrderRequest = order_request order_id user_id priced shipping w.db.clock in
      let (r, w') = enqueue req w in
      elim r [
        | ok _ ↦ (ok (queued_response req total shipping), w')
        | err _ ↦ (
          err (service_error "QUEUE_FAILED" "주문 큐 등록에 실패했습니다." 500),
          restore_stock ids svc taken w',
        )
      ]

  -- `has_queue` says whether `SetOrderQueue` has been called.
  unfoldable pub async_create_order :
      Bool
      → Uuid
      → List OrderItemRequest
      → Option ShippingAddress
      → Exec (OrderWorld R) Failure OrderResponse
  unfolding enqueue_or_restore
  async_create_order has_queue user_id items shipping w =
      if has_queue
      then (price_items ids svc items (pos 0) >>= λ a. decrease_items ids svc items [] >>= λ taken.
            enqueue_or_restore w.db.next_id user_id a.1 shipping a.0 taken)
          (with_new_id w)
      else (err (service_error "QUEUE_NOT_INITIALIZED" "주문 큐가 초기화되지 않았습니다." 500), w)
