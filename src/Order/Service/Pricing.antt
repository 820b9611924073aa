-- ===== src/Order/Service/Pricing.antt =====
-- Step 1 of `CreateOrder` in services/order/go/internal/service/order.go: the prices.
pub mod Total
pub mod Reads
use text.Mathlib.Text.{◌==◌ as str_eq}
use flash_deals.Base.{
  ℤ, add32, mul32, String, Option, none, some, List, [], ◌∷◌, Uuid, UuidText, Result, ok, err, Exec,
  pure, ◌>>=◌, if◌then◌else◌,
}
use flash_deals.Rpc.{ProductService}
use flash_deals.Order.State.{OrderWorld}
use flash_deals.Order.Client.{DealInfo, ProductInfo, ClientError, get_product, get_deal}
use flash_deals.Order.Service.{OrderItemRequest, Failure, panicked, service_error, of_client}

pub record OrderItemData : Type 0 where
  pub product_id : Uuid
  pub deal_id : Option Uuid
  pub product_name : String
  pub quantity : ℤ
  pub unit_price : ℤ
  pub subtotal : ℤ

-- An error of the client, as the service passes it on.
abbrev pub from_client : {S A : Type 0} → Exec S ClientError A → Exec S Failure A
from_client m w = let (r, w') = m w in (elim r [ ok a ↦ ok a | err e ↦ err (of_client e) ], w')

-- `deal.Product.Name` panics if the answer has no product.
abbrev deal_terms : Option ProductInfo → ℤ → Result Failure (ℤ × String)
deal_terms none price = err (panicked "nil pointer dereference")
deal_terms (some p) price = ok (price, p.name)

abbrev pub item_data : OrderItemRequest → ℤ → String → OrderItemData
item_data item price name = record {
  product_id = item.product_id;
  deal_id = item.deal_id;
  product_name = name;
  quantity = item.quantity;
  unit_price = price;
  subtotal = mul32 price item.quantity;
}

module _ {R : Type 0} (ids : UuidText) (svc : ProductService R) where
  -- The checks on a deal, and the unit price and the name that it gives.
  unfoldable pub deal_price : OrderItemRequest → DealInfo → Result Failure (ℤ × String)
  deal_price item deal =
      if str_eq deal.product_id (ids.format item.product_id)
      then (if str_eq deal.status "active"
          then deal_terms deal.product deal.deal_price
          else err (service_error "DEAL_NOT_ACTIVE" "핫딜이 진행 중이 아닙니다." 400))
      else err (service_error "INVALID_DEAL" "핫딜과 상품이 일치하지 않습니다." 400)

  unfoldable pub price_of : OrderItemRequest → Exec (OrderWorld R) Failure (ℤ × String)
  unfolding deal_price
  price_of item = elim item.deal_id [
    | some id ↦ (do deal ← from_client (get_deal ids svc id); λ w. (deal_price item deal, w))
    | none ↦ (do
      prod ← from_client (get_product ids svc item.product_id)
      pure (prod.price, prod.name))
  ]

  -- The loop over the items, with the total so far.
  unfoldable pub price_items :
      List OrderItemRequest → ℤ → Exec (OrderWorld R) Failure (List OrderItemData × ℤ)
  unfolding price_of
  price_items [] total = pure ([], total)
  price_items (item ∷ items) total = do
    (price, name) ← price_of item
    (priced, total') ← price_items items (add32 total (mul32 price item.quantity))
    pure (item_data item price name ∷ priced, total')
