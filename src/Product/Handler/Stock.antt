-- ===== src/Product/Handler/Stock.antt =====
-- The stock handlers of services/product/go/internal/handler/product.go.
pub mod Serial
use flash_deals.Base.{
  ℕ, ℤ, pos, add32, ltb_ℤ, String, Option, none, some, Uuid, UuidText, ok, err, if◌then◌else◌,
}
use flash_deals.Http.{
  reply, refuse, status_ok, status_bad_request, status_not_found, status_internal_server_error,
}
use flash_deals.Product.State.{ProductWorld, error_text}
use flash_deals.Product.Handler.{ProductHandler, Handle}

pub record UpdateStockRequest : Type 0 where
  pub stock_delta : ℤ

pub record StockResponse : Type 0 where
  pub id : String
  pub stock : ℤ
  pub updated_at : ℕ

module _ (ids : UuidText) where
  unfoldable pub get_stock : ProductHandler → String → Handle StockResponse
  get_stock h id_str w = elim (ids.parse id_str) [
    | err e ↦ (refuse status_bad_request "Invalid product ID", w)
    | ok id ↦
        let (r, w') = h.repo.get_product_by_id id w in
        elim r [
          | err e ↦ (refuse status_not_found "Product not found", w')
          | ok p ↦ (
            reply status_ok
                (record { id = ids.format p.id; stock = p.stock; updated_at = p.updated_at }),
            w',
          )
        ]
  ]

  -- The end of `UpdateStock`: the second of its two transactions.
  unfoldable pub store_stock : ProductHandler → Uuid → ℤ → Handle StockResponse
  store_stock h id new_stock w =
      let (r, w') = h.repo.update_stock id new_stock w in
      elim r [
        | err e ↦ (refuse status_internal_server_error (error_text e), w')
        | ok row ↦ (
          reply status_ok
              (record { id = ids.format row.id; stock = row.stock; updated_at = row.updated_at }),
          w',
        )
      ]

  -- After the stock that was read.
  unfoldable pub change_stock : ProductHandler → Uuid → ℤ → ℤ → Handle StockResponse
  unfolding store_stock
  change_stock h id current delta w =
      let new_stock = add32 current delta in
      if ltb_ℤ new_stock (pos 0)
      then (refuse status_bad_request "Insufficient stock", w)
      else store_stock h id new_stock w

  unfoldable pub update_stock :
      ProductHandler → String → Option UpdateStockRequest → Handle StockResponse
  unfolding change_stock
  update_stock h id_str body w = elim (ids.parse id_str) [
    | err e ↦ (refuse status_bad_request "Invalid product ID", w)
    | ok id ↦ elim body [
      | none ↦ (refuse status_bad_request "Invalid request body", w)
      | some req ↦
          let (r, w') = h.repo.get_stock_for_update id w in
          elim r [
            | err e ↦ (refuse status_not_found "Product not found", w')
            | ok current ↦ change_stock h id current.stock req.stock_delta w'
          ]
    ]
  ]
