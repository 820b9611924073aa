-- ===== src/Order/Handler.antt =====
-- The HTTP handlers of orders, services/order/go/internal/handler/order.go. The texts of the header
-- `X-User-ID`, of the path and of the query are arguments, and so are `strconv.Atoi` and what `c.Bind`
-- makes of the body, if it does.
pub mod Cases
pub mod Create
pub mod Decode
pub mod Bounds
use text.Mathlib.Text.{◌==◌ as str_eq}
use flash_deals.Base.{
  ℕ, ℤ, pos, ltb_ℤ, leb_ℤ, wrap32, String, Bool, ◌&&◌, Option, none, some, List, map, Uuid,
  UuidText, Result, ok, err, if◌then◌else◌,
}
use flash_deals.Http.{
  Response, reply, refuse, status_ok, status_bad_request, status_unauthorized,
  status_internal_server_error,
}
use flash_deals.Rpc.{ProductService}
use flash_deals.Order.State.{OrderWorld, error_text}
use flash_deals.Order.Service
use flash_deals.Order.Service.{Failure, service, raw, panicked}
use flash_deals.Order.Service.Status.{get_order, confirm_order, cancel_order}
use flash_deals.Order.Service.Lists.{list_orders}

pub record ErrorResponse : Type 0 where
  pub error : String
  pub message : String

-- The body of an error. A panic goes through the handler: echo's `Recover` answers it.
pub data Refusal : Type 0 where
  refused : ErrorResponse → Refusal
  recovered : String → Refusal

abbrev pub error_json : {A : Type 0} → ℕ → String → String → Response Refusal A
error_json code error message = refuse code (refused (record { error = error; message = message }))

-- A handler with its request given.
abbrev pub Handle : Type 0 → Type 0 → Type 0
Handle R A = OrderWorld R → Response Refusal A × OrderWorld R

pub record OrderItemResponse : Type 0 where
  pub id : String
  pub product_id : String
  pub deal_id : Option String
  pub product_name : String
  pub quantity : ℤ
  pub unit_price : ℤ
  pub subtotal : ℤ

pub record ShippingAddressResponse : Type 0 where
  pub recipient_name : String
  pub phone : String
  pub address : String
  pub address_detail : Option String
  pub postal_code : String

pub record OrderResponse : Type 0 where
  pub id : String
  pub user_id : String
  pub items : List OrderItemResponse
  pub total_amount : ℤ
  pub status : String
  pub shipping_address : Option ShippingAddressResponse
  pub cancelled_at : Option ℕ
  pub cancel_reason : Option String
  pub created_at : ℕ
  pub updated_at : ℕ

pub record OrderListResponse : Type 0 where
  pub items : List OrderResponse
  pub total : ℤ
  pub page : ℤ
  pub size : ℤ

abbrev shipping_response : Option Service.ShippingAddress → Option ShippingAddressResponse
shipping_response none = none
shipping_response (some a) = some (record {
  recipient_name = a.recipient_name;
  phone = a.phone;
  address = a.address;
  address_detail = a.address_detail;
  postal_code = a.postal_code;
})

-- What the handlers make of the result of a method: an error of the service keeps its status.
abbrev pub answer : {A B : Type 0} → ℕ → (A → B) → Result Failure A → Response Refusal B
answer code f (ok a) = reply code (f a)
answer code f (err (service e)) = error_json e.status e.code e.text
answer code f (err (raw e)) =
    error_json status_internal_server_error "INTERNAL_ERROR" (error_text e)
answer code f (err (panicked t)) = refuse status_internal_server_error (recovered t)

-- `ListOrders` takes every error for one of the server.
abbrev pub list_answer : {A B : Type 0} → (A → B) → Result Failure A → Response Refusal B
list_answer f (ok a) = reply status_ok (f a)
list_answer f (err (service e)) = error_json status_internal_server_error "INTERNAL_ERROR" e.text
list_answer f (err (raw e)) =
    error_json status_internal_server_error "INTERNAL_ERROR" (error_text e)
list_answer f (err (panicked t)) = refuse status_internal_server_error (recovered t)

module _ (ids : UuidText) where
  abbrev item_response : Service.OrderItemResponse → OrderItemResponse
  item_response item = record {
    id = ids.format item.id;
    product_id = ids.format item.product_id;
    deal_id = elim item.deal_id [ none ↦ none | some d ↦ some (ids.format d) ];
    product_name = item.product_name;
    quantity = item.quantity;
    unit_price = item.unit_price;
    subtotal = item.subtotal;
  }

  unfoldable pub to_order_response : Service.OrderResponse → OrderResponse
  to_order_response order = record {
    id = ids.format order.id;
    user_id = ids.format order.user_id;
    items = map item_response order.items;
    total_amount = order.total_amount;
    status = order.status;
    shipping_address = shipping_response order.shipping_address;
    cancelled_at = order.cancelled_at;
    cancel_reason = order.cancel_reason;
    created_at = order.created_at;
    updated_at = order.updated_at;
  }

  -- How each handler begins: the user of the header.
  unfoldable pub with_user : {R A : Type 0} → String → (Uuid → Handle R A) → Handle R A
  with_user user_id_str h w =
      if str_eq user_id_str ""
      then (error_json status_unauthorized "UNAUTHORIZED" "X-User-ID header required", w)
      else (elim (ids.parse user_id_str) [
        | err e ↦ (error_json status_bad_request "INVALID_USER_ID" "Invalid user ID format", w)
        | ok user_id ↦ h user_id w
      ])

  -- Next, for three of them: the order of the path.
  unfoldable pub with_order : {R A : Type 0} → String → (Uuid → Handle R A) → Handle R A
  with_order order_id_str h w = elim (ids.parse order_id_str) [
    | err e ↦ (error_json status_bad_request "INVALID_ORDER_ID" "Invalid order ID format", w)
    | ok order_id ↦ h order_id w
  ]

abbrev pub page_param : (String → Option ℤ) → String → ℤ
page_param atoi t =
    if str_eq t ""
    then pos 1
    else (elim (atoi t) [ none ↦ pos 1 | some n ↦ if ltb_ℤ (pos 0) n then wrap32 n else pos 1 ])

abbrev pub size_param : (String → Option ℤ) → String → ℤ
size_param atoi t = if str_eq t "" then pos 20 else (elim (atoi t) [
  | none ↦ pos 20
  | some n ↦ if ltb_ℤ (pos 0) n && leb_ℤ n (pos 100) then wrap32 n else pos 20
])

abbrev pub status_param : String → Option String
status_param t = if str_eq t "" then none else some t

module _ {R : Type 0} (ids : UuidText) where
  unfoldable pub get_order_handler : String → String → Handle R OrderResponse
  unfolding with_user with_order
  get_order_handler user_id_str order_id_str = with_user ids user_id_str λ user_id.
      with_order ids order_id_str λ order_id w.
        let (r, w') = get_order order_id user_id w in
        (answer status_ok (to_order_response ids) r, w')

  -- After the user.
  unfoldable pub answer_list :
      (String → Option ℤ) → String → String → String → Uuid → Handle R OrderListResponse
  answer_list atoi page_text size_text status_text user_id w =
      let page = page_param atoi page_text in
      let size = size_param atoi size_text in
      let (r, w') = list_orders user_id page size (status_param status_text) w in
      (
        list_answer
            (λ p. record {
              items = map (to_order_response ids) p.0;
              total = p.1;
              page = page;
              size = size;
            })
            r,
        w',
      )

  unfoldable pub list_orders_handler :
      (String → Option ℤ) → String → String → String → String → Handle R OrderListResponse
  unfolding with_user answer_list
  list_orders_handler atoi user_id_str page_text size_text status_text =
      with_user ids user_id_str (answer_list atoi page_text size_text status_text)

  unfoldable pub confirm_order_handler : String → String → Handle R OrderResponse
  unfolding with_user with_order
  confirm_order_handler user_id_str order_id_str = with_user ids user_id_str λ user_id.
      with_order ids order_id_str λ order_id w.
        let (r, w') = confirm_order order_id user_id w in
        (answer status_ok (to_order_response ids) r, w')

  -- The error of `c.Bind` is ignored: without a body there is no reason.
  unfoldable pub cancel_order_handler :
      ProductService R → String → String → Option String → Handle R OrderResponse
  unfolding with_user with_order
  cancel_order_handler svc user_id_str order_id_str reason = with_user ids user_id_str λ user_id.
      with_order ids order_id_str λ order_id w.
        let (r, w') = cancel_order ids svc order_id user_id reason w in
        (answer status_ok (to_order_response ids) r, w')
