-- ===== src/Product/Server.antt =====
-- The gRPC server of the product service, services/product/go/internal/grpc/server.go.
pub mod View
pub mod Queued
pub mod Hot
pub mod Promises
pub mod Cache
use Prim.Native.String.{◌++◌ as append}
use text.Mathlib.Text.{◌==◌ as str_eq}
use flash_deals.Base.{
  ℤ, pos, ltb_ℤ, neg32, starts_with, String, Bool, true, false, Option, none, some, Uuid, UuidText,
  Result, ok, err, Exec, if◌then◌else◌,
}
use flash_deals.Rpc.{
  Code, invalid_argument, not_found, failed_precondition, internal, Status, ProductMessage,
  DealMessage, ProductService,
}
use flash_deals.Product.State.{ProductProduct, ProductWorld, Error, error_text}
use flash_deals.Product.Queries.{UpdateStockRow}
use flash_deals.Product.Queries.{UpdateStockRow}
use flash_deals.Product.Queries.Deals.{GetDealByIdRow}
use flash_deals.Product.Repository.{ProductRepository}
use flash_deals.Product.Hotdeal.{HotdealRepository, has_stock, decrement_stock, increment_stock}
use flash_deals.Product.StockQueue.{queue_update_stock}

abbrev status : Code → String → Status
status c t = record { code = c; text = t }

-- `if product.Description.Valid { ... }` over a field that is empty at first
abbrev text_or_empty : Option String → String
text_or_empty none = ""
text_or_empty (some s) = s

pub record ProductServer : Type 0 where
  pub repo : ProductRepository
  pub hotdeal_repo : Option HotdealRepository

-- The answer to a failure of the repository: a code and a text before the error's own.
abbrev fail_with : {A B : Type 0} → Code → String → Result Error A → (A → B) → Result Status B
fail_with c t (ok a) f = ok (f a)
fail_with c t (err e) f = err (status c (append t (error_text e)))

module _ (ids : UuidText) where
  unfoldable pub product_message : ProductProduct → ℤ → ProductMessage
  product_message p stock = record {
    id = ids.format p.id;
    name = p.name;
    description = text_or_empty p.description;
    price = p.price;
    stock = stock;
    created_at = p.created_at;
    updated_at = p.updated_at;
  }

  unfoldable pub get_product : ProductServer → String → Exec ProductWorld Status ProductMessage
  get_product s product_id w = elim (ids.parse product_id) [
    | err e ↦ (err (status invalid_argument (append "invalid product ID: " e)), w)
    | ok id ↦
        let (r, w') = s.repo.get_product_by_id id w in
        (fail_with not_found "product not found: " r (λ p. product_message p p.stock), w')
  ]

-- It never looks at the deal.
unfoldable pub get_deal_status : GetDealByIdRow → String
get_deal_status deal = "active"

module _ (ids : UuidText) where
  pub deal_message : GetDealByIdRow → DealMessage
  unfolding get_deal_status
  deal_message deal = record {
    id = ids.format deal.id;
    product_id = ids.format deal.product_id;
    deal_price = deal.deal_price;
    stock_limit = deal.deal_stock;
    start_time = deal.starts_at;
    end_time = deal.ends_at;
    status = get_deal_status deal;
    product = some (record {
      id = ids.format deal.p_id;
      name = deal.p_name;
      description = text_or_empty deal.p_description;
      price = deal.p_price;
      stock = deal.p_stock;
      created_at = deal.p_created_at;
      updated_at = deal.p_updated_at;
    });
  }

  unfoldable pub get_deal : ProductServer → String → Exec ProductWorld Status DealMessage
  get_deal s deal_id w = elim (ids.parse deal_id) [
    | err e ↦ (err (status invalid_argument (append "invalid deal ID: " e)), w)
    | ok id ↦
        let (r, w') = s.repo.get_deal_by_id id w in
        (fail_with not_found "deal not found: " r deal_message, w')
  ]

-- The hot deal's branch of `UpdateStock`: Redis, by the sign of the delta.
unfoldable pub update_hotdeal_stock : HotdealRepository → Uuid → ℤ → Exec ProductWorld Status ℤ
update_hotdeal_stock h id delta w =
    if ltb_ℤ delta (pos 0)
    then (let (r, w') = decrement_stock h id (neg32 delta) w in
        elim r [
          | ok stock ↦ (ok stock, w')
          | err e ↦
              if str_eq (error_text e) "insufficient stock"
              then (err (status failed_precondition "insufficient stock"), w')
              else (err (status internal (append "failed to update stock: " (error_text e))), w')
        ])
    else (let (r, w') = increment_stock h id delta w in
        (fail_with internal "failed to update stock: " r (λ stock. stock), w'))

-- The answer to what the stock queue returns. A lack of stock is told by the text of the error.
abbrev queued_reply : Result Error UpdateStockRow × ProductWorld → Result Status ℤ × ProductWorld
queued_reply (ok row, w) = (ok row.stock, w)
queued_reply (err e, w) = (
  err (
      if starts_with (error_text e) "insufficient stock"
      then status failed_precondition "insufficient stock"
      else status internal (append "failed to update stock: " (error_text e))),
  w,
)

-- The other branch: the database, through the stock queue.
unfoldable pub update_queued_stock : ProductRepository → Uuid → ℤ → Exec ProductWorld Status ℤ
update_queued_stock repo id delta w = queued_reply (queue_update_stock repo id delta w)

-- The first part of `UpdateStock`: the new stock, in Redis if it has the product's key.
unfoldable pub new_stock : ProductServer → Uuid → ℤ → Exec ProductWorld Status ℤ
new_stock s id delta w = elim s.hotdeal_repo [
  | none ↦ update_queued_stock s.repo id delta w
  | some h ↦
      let (found, w') = has_stock h id w in
      if found then update_hotdeal_stock h id delta w' else update_queued_stock s.repo id delta w'
]

module _ (ids : UuidText) where
  -- The second part: the whole product for the answer.
  unfoldable pub answer_stock : ProductServer → Uuid → ℤ → Exec ProductWorld Status ProductMessage
  answer_stock s id stock w =
      let (r, w') = s.repo.get_product_by_id id w in
      (fail_with internal "failed to get product: " r (λ p. product_message ids p stock), w')

  unfoldable pub update_stock : ProductServer → String → ℤ → Exec ProductWorld Status ProductMessage
  unfolding new_stock answer_stock
  update_stock s product_id delta w = elim (ids.parse product_id) [
    | err e ↦ (err (status invalid_argument (append "invalid product ID: " e)), w)
    | ok id ↦
        let (r, w') = new_stock s id delta w in
        elim r [ ok stock ↦ answer_stock s id stock w' | err st ↦ (err st, w') ]
  ]

  -- What the order service calls.
  abbrev pub product_service : ProductServer → ProductService ProductWorld
  product_service s = record {
    get_product = get_product ids s;
    get_deal = get_deal ids s;
    update_stock = update_stock s;
  }
