-- ===== src/Order/Client.antt =====
-- The client of the product service, services/order/go/internal/product/client.go.
pub mod Stock
pub mod Init
use Prim.Native.String.{◌++◌ as append}
use flash_deals.Base.{
  ℕ, ℤ, neg32, String, Option, none, some, Uuid, UuidText, ok, err, Exec, if◌then◌else◌,
}
use flash_deals.Rpc.{
  Code, invalid_argument, not_found, failed_precondition, Status, ProductMessage, DealMessage,
  ProductService,
}
use flash_deals.Order.State.{OrderWorld, RpcError, status_error, plain_error, rpc}

pub record ProductInfo : Type 0 where
  pub id : String
  pub name : String
  pub description : String
  pub price : ℤ
  pub stock : ℤ

pub record DealInfo : Type 0 where
  pub id : String
  pub product_id : String
  pub deal_price : ℤ
  pub stock_limit : ℤ
  pub status : String
  pub product : Option ProductInfo

pub record StockResult : Type 0 where
  pub product_id : String
  pub stock : ℤ

pub record ClientError : Type 0 where
  pub code : String
  pub text : String
  pub status : ℕ

abbrev not_initialized : ClientError
not_initialized = record {
  code = "CLIENT_NOT_INITIALIZED";
  text = "Product client not initialized";
  status = 500;
}

-- The `switch` on the code of a status.
abbrev status_case : Code → String → String → String → ClientError
status_case not_found message resource id = record {
  code = append resource "_NOT_FOUND";
  text = append resource (append "을(를) 찾을 수 없습니다: " id);
  status = 404;
}
status_case invalid_argument message resource id = record {
  code = append "INVALID_" (append resource "_ID");
  text = message;
  status = 400;
}
status_case _ message resource id = record {
  code = "PRODUCT_SERVICE_ERROR";
  text = append resource (append " 서비스 오류: " message);
  status = 502;
}

unfoldable pub handle_grpc_error : RpcError → String → String → ClientError
handle_grpc_error (status_error st) resource id = status_case st.code st.text resource id
handle_grpc_error (plain_error e) resource id = record {
  code = "PRODUCT_SERVICE_ERROR";
  text = append resource (append " 서비스 오류: " e);
  status = 502;
}

-- A lack of stock has an error of its own in `DecreaseStock`.
unfoldable pub decrease_error : RpcError → String → ClientError
unfolding handle_grpc_error
decrease_error (status_error st) id = elim st.code [
  | failed_precondition ↦ record { code = "INSUFFICIENT_STOCK"; text = "재고가 부족합니다."; status = 400 }
  | _ ↦ handle_grpc_error (status_error st) "Product" id
]
decrease_error (plain_error e) id = handle_grpc_error (plain_error e) "Product" id

abbrev product_info : ProductMessage → ProductInfo
product_info p = record {
  id = p.id;
  name = p.name;
  description = p.description;
  price = p.price;
  stock = p.stock;
}

abbrev deal_info : DealMessage → DealInfo
deal_info d = record {
  id = d.id;
  product_id = d.product_id;
  deal_price = d.deal_price;
  stock_limit = d.stock_limit;
  status = d.status;
  product = elim d.product [ none ↦ none | some p ↦ some (product_info p) ];
}

abbrev stock_result : ProductMessage → StockResult
stock_result p = record { product_id = p.id; stock = p.stock }

-- A call of the service, if the client is there: what to do with the answer, and with an error.
abbrev pub request :
    {R M A : Type 0}
    → Exec R Status M
    → (M → A)
    → (RpcError → ClientError)
    → Exec (OrderWorld R) ClientError A
request op f g w =
    if w.connected
    then (let (r, w') = rpc op w in (elim r [ ok m ↦ ok (f m) | err e ↦ err (g e) ], w'))
    else (err not_initialized, w)

module _ {R : Type 0} (ids : UuidText) (svc : ProductService R) where
  unfoldable pub get_product : Uuid → Exec (OrderWorld R) ClientError ProductInfo
  get_product id =
      request (svc.get_product (ids.format id)) product_info
        λ e. handle_grpc_error e "Product" (ids.format id)

  unfoldable pub get_deal : Uuid → Exec (OrderWorld R) ClientError DealInfo
  get_deal id =
      request (svc.get_deal (ids.format id)) deal_info
        λ e. handle_grpc_error e "Deal" (ids.format id)

  unfoldable pub decrease_stock : Uuid → ℤ → Exec (OrderWorld R) ClientError StockResult
  decrease_stock id quantity =
      request (svc.update_stock (ids.format id) (neg32 quantity)) stock_result
        λ e. decrease_error e (ids.format id)

  unfoldable pub increase_stock : Uuid → ℤ → Exec (OrderWorld R) ClientError StockResult
  increase_stock id quantity =
      request (svc.update_stock (ids.format id) quantity) stock_result
        λ e. handle_grpc_error e "Product" (ids.format id)
