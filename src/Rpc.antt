-- ===== src/Rpc.antt =====
-- The gRPC interface between the services, api/proto/product.proto: its messages, its errors, and
-- the operations that the order service calls and the product service implements.
use flash_deals.Base.{ℕ, ℤ, String, Option, Exec}
pub mod Stock

-- google.golang.org/grpc/codes, as far as the two services use them or may see them
pub data Code : Type 0 where
  invalid_argument not_found failed_precondition internal : Code
  canceled deadline_exceeded unavailable unknown : Code

pub record Status : Type 0 where
  pub code : Code
  pub text : String

-- Times are sent as texts; they are kept as numbers here.
pub record ProductMessage : Type 0 where
  pub id : String
  pub name : String
  pub description : String
  pub price : ℤ
  pub stock : ℤ
  pub created_at : ℕ
  pub updated_at : ℕ

pub record DealMessage : Type 0 where
  pub id : String
  pub product_id : String
  pub deal_price : ℤ
  pub stock_limit : ℤ
  pub start_time : ℕ
  pub end_time : ℕ
  pub status : String
  pub product : Option ProductMessage

-- `R` is the state of the process that answers.
pub record ProductService (R : Type 0) : Type 0 where
  pub get_product : String → Exec R Status ProductMessage
  pub get_deal : String → Exec R Status DealMessage
  pub update_stock : String → ℤ → Exec R Status ProductMessage
