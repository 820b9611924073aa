-- ===== src/Product/Handler/Hotdeals.antt =====
-- The handlers that start and end a hot deal, services/product/go/internal/handler/product.go.
pub mod Synced
pub mod Ends
use flash_deals.Base.{
  ℤ, pos, ltb_ℤ, String, Option, none, some, Uuid, UuidText, Result, ok, err, Exec, if◌then◌else◌,
}
use flash_deals.Http.{
  Response, reply, refuse, status_ok, status_bad_request, status_not_found,
  status_internal_server_error,
}
use flash_deals.Product.State.{ProductWorld, Error, error_text}
use flash_deals.Product.Hotdeal.{HotdealRepository, is_enabled, load_stock, unload_stock}
use flash_deals.Product.Handler.{ProductHandler, Handle}

pub record HotdealResponse : Type 0 where
  pub product_id : String
  pub stock : ℤ
  pub message : String

module _ (ids : UuidText) where
  -- The loading of the stock, if there is a repository of hot deals, and the answer.
  unfoldable pub load_hotdeal : ProductHandler → Uuid → ℤ → Handle HotdealResponse
  load_hotdeal h id stock w = elim h.hotdeal_repo [
    | none ↦ (reply status_ok answer, w)
    | some hot ↦
        let (r, w') = load_stock hot id stock w in
        elim r [
          | err e ↦ (refuse status_internal_server_error (error_text e), w')
          | ok _ ↦ (reply status_ok answer, w')
        ]
  ]
    where
      answer : HotdealResponse
      answer = record { product_id = ids.format id; stock = stock; message = "Hotdeal started" }

  unfoldable pub start_hotdeal : ProductHandler → String → Handle HotdealResponse
  unfolding load_hotdeal
  start_hotdeal h id_str w = elim (ids.parse id_str) [
    | err e ↦ (refuse status_bad_request "Invalid product ID", w)
    | ok id ↦
        let (r, w') = h.repo.get_product_by_id id w in
        elim r [
          | err e ↦ (refuse status_not_found "Product not found", w')
          | ok p ↦ load_hotdeal h id p.stock w'
        ]
  ]

  abbrev pub hotdeal_ended : Uuid → ℤ → Response String HotdealResponse
  hotdeal_ended id stock =
      reply status_ok
        (record { product_id = ids.format id; stock = stock; message = "Hotdeal ended" })

  -- The stock back into the table, unless it is 0 or less.
  unfoldable pub sync_stock : ProductHandler → Uuid → ℤ → Handle HotdealResponse
  sync_stock h id stock w =
      if ltb_ℤ (pos 0) stock
      then (let (r, w') = h.repo.update_stock id stock w in
          elim r [
            | err e ↦ (refuse status_internal_server_error "Failed to sync stock to DB", w')
            | ok _ ↦ (hotdeal_ended id stock, w')
          ])
      else (hotdeal_ended id stock, w)

  unfoldable pub unload_hotdeal : ProductHandler → HotdealRepository → Uuid → Handle HotdealResponse
  unfolding sync_stock
  unload_hotdeal h hot id w =
      let (r, w') = unload_stock hot id w in
      elim r [
        | err e ↦ (refuse status_internal_server_error (error_text e), w')
        | ok stock ↦ sync_stock h id stock w'
      ]

  -- Without Redis: the stock of the table.
  unfoldable pub end_without_redis : ProductHandler → Uuid → Handle HotdealResponse
  end_without_redis h id w =
      let (r, w') = h.repo.get_product_by_id id w in
      elim r [
        | err e ↦ (refuse status_not_found "Product not found", w')
        | ok p ↦ (hotdeal_ended id p.stock, w')
      ]

  unfoldable pub end_hotdeal : ProductHandler → String → Handle HotdealResponse
  unfolding unload_hotdeal end_without_redis
  end_hotdeal h id_str w = elim (ids.parse id_str) [
    | err e ↦ (refuse status_bad_request "Invalid product ID", w)
    | ok id ↦ elim h.hotdeal_repo [
      | none ↦ end_without_redis h id w
      | some hot ↦ if is_enabled hot then unload_hotdeal h hot id w else end_without_redis h id w
    ]
  ]
