-- ===== src/Order/Handler/Create.antt =====
-- `CreateOrder` of services/order/go/internal/handler/order.go.
use flash_deals.Base.{
  ℤ, String, Bool, true, false, Option, none, some, List, [], ◌∷◌, Uuid, UuidText, Result, ok, err,
  Exec, if◌then◌else◌,
}
use flash_deals.Http.{refuse, status_accepted, status_bad_request}
use flash_deals.Rpc.{ProductService}
use flash_deals.Order.State.{OrderWorld}
use flash_deals.Order.Service
use flash_deals.Order.Service.{OrderItemRequest, ShippingAddress, Failure}
use flash_deals.Order.Service.Create.{create_order}
use flash_deals.Order.Service.Async.{async_create_order}
use flash_deals.Order.Handler.{
  ErrorResponse, refused, Handle, OrderResponse, answer, to_order_response, with_user,
}

-- `has_queue` says whether `SetOrderQueue` has been called on the service.
pub record OrderHandler : Type 0 where
  pub async_enabled : Bool
  pub has_queue : Bool

unfoldable pub new_order_handler : OrderHandler
new_order_handler = record { async_enabled = false; has_queue = false }

unfoldable pub set_async_enabled : Bool → OrderHandler → OrderHandler
set_async_enabled enabled h = record h { async_enabled = enabled }

-- Of the handler's service.
unfoldable pub set_order_queue : OrderHandler → OrderHandler
set_order_queue h = record h { has_queue = true }

pub record CreateOrderItemRequest : Type 0 where
  pub product_id : String
  pub deal_id : Option String
  pub quantity : ℤ

pub record ShippingAddressRequest : Type 0 where
  pub recipient_name : String
  pub phone : String
  pub address : String
  pub address_detail : Option String
  pub postal_code : String

pub record CreateOrderRequest : Type 0 where
  pub items : List CreateOrderItemRequest
  pub shipping_address : Option ShippingAddressRequest

abbrev pub shipping_address : Option ShippingAddressRequest → Option ShippingAddress
shipping_address none = none
shipping_address (some a) = some (record {
  recipient_name = a.recipient_name;
  phone = a.phone;
  address = a.address;
  address_detail = a.address_detail;
  postal_code = a.postal_code;
})

abbrev invalid : String → String → ErrorResponse
invalid error message = record { error = error; message = message }

module _ (ids : UuidText) where
  -- One turn of the loop over the items.
  unfoldable pub convert_item : CreateOrderItemRequest → Result ErrorResponse OrderItemRequest
  convert_item item = elim (ids.parse item.product_id) [
    | err e ↦ err (invalid "INVALID_PRODUCT_ID" "Invalid product ID format")
    | ok product_id ↦ elim item.deal_id [
      | none ↦ ok (record { product_id = product_id; deal_id = none; quantity = item.quantity })
      | some deal_id_str ↦ elim (ids.parse deal_id_str) [
        | err e ↦ err (invalid "INVALID_DEAL_ID" "Invalid deal ID format")
        | ok deal_id ↦
            ok
              (record { product_id = product_id; deal_id = some deal_id; quantity = item.quantity })
      ]
    ]
  ]

  -- The loop: the first item that is no request ends it.
  unfoldable pub convert_items :
      List CreateOrderItemRequest → Result ErrorResponse (List OrderItemRequest)
  unfolding convert_item
  convert_items [] = ok []
  convert_items (item ∷ items) =
      let rest = convert_items items in
      elim (convert_item item) [
        | err e ↦ err e
        | ok r ↦ elim rest [ err e ↦ err e | ok rs ↦ ok (r ∷ rs) ]
      ]

  -- What the body asks for, or why it is refused.
  unfoldable pub decode : Option CreateOrderRequest → Result ErrorResponse (List OrderItemRequest)
  unfolding convert_items
  decode none = err (invalid "INVALID_REQUEST" "Invalid request body")
  decode (some req) = elim req.items [
    | [] ↦ err (invalid "INVALID_REQUEST" "At least one item is required")
    | item ∷ items ↦ convert_items (item ∷ items)
  ]

  abbrev pub address_of : Option CreateOrderRequest → Option ShippingAddress
  address_of none = none
  address_of (some req) = shipping_address req.shipping_address

module _ {R : Type 0} (ids : UuidText) (svc : ProductService R) where
  -- Both ways to create an order.
  unfoldable pub run_create :
      OrderHandler
      → Uuid
      → List OrderItemRequest
      → Option ShippingAddress
      → Exec (OrderWorld R) Failure Service.OrderResponse
  run_create h user_id items shipping =
      if h.async_enabled
      then async_create_order ids svc h.has_queue user_id items shipping
      else create_order ids svc user_id items shipping

  -- After the user.
  unfoldable pub answer_create :
      OrderHandler → Option CreateOrderRequest → Uuid → Handle R OrderResponse
  unfolding decode run_create
  answer_create h body user_id w = elim (decode ids body) [
    | err e ↦ (refuse status_bad_request (refused e), w)
    | ok items ↦
        let (r, w') = run_create h user_id items (address_of ids body) w in
        (answer status_accepted (to_order_response ids) r, w')
  ]

  unfoldable pub create_order_handler :
      OrderHandler → String → Option CreateOrderRequest → Handle R OrderResponse
  unfolding with_user answer_create
  create_order_handler h user_id_str body = with_user ids user_id_str (answer_create h body)
