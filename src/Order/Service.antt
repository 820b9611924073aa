-- ===== src/Order/Service.antt =====
-- The types of services/order/go/internal/service/order.go; its methods are in the child modules.
pub mod Transaction
pub mod Pricing
pub mod Stock
pub mod Create
pub mod Status
pub mod Async
pub mod Lists
pub mod Undo
use Prim.Native.String.{◌++◌ as append}
use flash_deals.Base.{ℕ, ℤ, String, Bool, Option, none, some, List, Uuid, Result, Exec, map}
use flash_deals.Order.State.{OrdersOrder, OrdersOrderItem, Error, status_text}
use flash_deals.Order.Client.{ClientError}

pub record ServiceError : Type 0 where
  pub code : String
  pub text : String
  pub status : ℕ

-- What a method returns as `error`: a `*ServiceError`, or an error of the database as it came. A
-- panic is the last case; the server's `Recover` turns it into an answer.
pub data Failure : Type 0 where
  service : ServiceError → Failure
  raw : Error → Failure
  panicked : String → Failure

abbrev pub service_error : String → String → ℕ → Failure
service_error code text status = service (record { code = code; text = text; status = status })

-- `&ServiceError{Code: ce.Code, Message: ce.Message, Status: ce.Status}`
abbrev pub of_client : ClientError → Failure
of_client ce = service_error ce.code ce.text ce.status

pub record OrderItemRequest : Type 0 where
  pub product_id : Uuid
  pub deal_id : Option Uuid
  pub quantity : ℤ

pub record ShippingAddress : Type 0 where
  pub recipient_name : String
  pub phone : String
  pub address : String
  pub address_detail : Option String
  pub postal_code : String

pub record OrderItemResponse : Type 0 where
  pub id : Uuid
  pub product_id : Uuid
  pub deal_id : Option Uuid
  pub product_name : String
  pub quantity : ℤ
  pub unit_price : ℤ
  pub subtotal : ℤ

pub record OrderResponse : Type 0 where
  pub id : Uuid
  pub user_id : Uuid
  pub items : List OrderItemResponse
  pub total_amount : ℤ
  pub status : String
  pub shipping_address : Option ShippingAddress
  pub cancelled_at : Option ℕ
  pub cancel_reason : Option String
  pub created_at : ℕ
  pub updated_at : ℕ

abbrev or_empty : Option String → String
or_empty none = ""
or_empty (some s) = s

-- The address in the order's row, or else the one that was asked for.
abbrev pub shipping_of : OrdersOrder → Option ShippingAddress → Option ShippingAddress
shipping_of order asked = elim order.recipient_name [
  | none ↦ asked
  | some name ↦ some (record {
    recipient_name = name;
    phone = or_empty order.phone;
    address = or_empty order.address;
    address_detail = order.address_detail;
    postal_code = or_empty order.postal_code;
  })
]

abbrev pub item_response : OrdersOrderItem → OrderItemResponse
item_response item = record {
  id = item.id;
  product_id = item.product_id;
  deal_id = item.deal_id;
  product_name = item.product_name;
  quantity = item.quantity;
  unit_price = item.unit_price;
  subtotal = item.subtotal;
}

unfoldable pub to_order_response :
    OrdersOrder → List OrdersOrderItem → Option ShippingAddress → OrderResponse
to_order_response order items shipping = record {
  id = order.id;
  user_id = order.user_id;
  items = map item_response items;
  total_amount = order.total_amount;
  status = status_text order.status;
  shipping_address = shipping_of order shipping;
  cancelled_at = order.cancelled_at;
  cancel_reason = order.cancel_reason;
  created_at = order.created_at;
  updated_at = order.updated_at;
}
