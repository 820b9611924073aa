-- ===== src/Product/Handler/Deals.antt =====
-- The deal handlers of services/product/go/internal/handler/product.go.
use flash_deals.Base.{ℕ, ℤ, pos, String, Option, none, some, List, map, UuidText, ok, err}
use flash_deals.Http.{
  reply, refuse, status_ok, status_created, status_bad_request, status_not_found,
  status_internal_server_error,
}
use flash_deals.Product.State.{ProductDeal, error_text}
use flash_deals.Product.Queries.Deals.{GetDealByIdRow}
use flash_deals.Product.Handler.{ProductHandler, ProductResponse, Handle, counted, int_param}

pub record CreateDealRequest : Type 0 where
  pub product_id : String
  pub deal_price : ℤ
  pub deal_stock : ℤ
  pub remaining_stock : ℤ
  pub starts_at : ℕ
  pub ends_at : ℕ

pub record DealResponse : Type 0 where
  pub id : String
  pub product_id : String
  pub deal_price : ℤ
  pub deal_stock : ℤ
  pub remaining_stock : ℤ
  pub starts_at : ℕ
  pub ends_at : ℕ
  pub created_at : ℕ
  pub product : Option ProductResponse

pub record DealListResponse : Type 0 where
  pub items : List DealResponse
  pub total : ℤ
  pub limit : ℤ
  pub skip : ℤ

module _ (ids : UuidText) where
  abbrev pub created_deal : ProductDeal → DealResponse
  created_deal deal = record {
    id = ids.format deal.id;
    product_id = ids.format deal.product_id;
    deal_price = deal.deal_price;
    deal_stock = deal.deal_stock;
    remaining_stock = deal.remaining_stock;
    starts_at = deal.starts_at;
    ends_at = deal.ends_at;
    created_at = deal.created_at;
    product = none;
  }

  unfoldable pub create_deal : ProductHandler → Option CreateDealRequest → Handle DealResponse
  create_deal h body w = elim body [
    | none ↦ (refuse status_bad_request "Invalid request body", w)
    | some req ↦ elim (ids.parse req.product_id) [
      | err e ↦ (refuse status_bad_request "Invalid product ID", w)
      | ok product_id ↦
          let (r, w') =
            h.repo.create_deal
              (record {
                product_id = product_id;
                deal_price = req.deal_price;
                deal_stock = req.deal_stock;
                remaining_stock = req.remaining_stock;
                starts_at = req.starts_at;
                ends_at = req.ends_at;
              })
              w in
          elim r [
            | err e ↦ (refuse status_internal_server_error (error_text e), w')
            | ok deal ↦ (reply status_created (created_deal deal), w')
          ]
    ]
  ]

  -- The answer for a deal with its product.
  abbrev pub deal_response : GetDealByIdRow → DealResponse
  deal_response row = record {
    id = ids.format row.id;
    product_id = ids.format row.product_id;
    deal_price = row.deal_price;
    deal_stock = row.deal_stock;
    remaining_stock = row.remaining_stock;
    starts_at = row.starts_at;
    ends_at = row.ends_at;
    created_at = row.created_at;
    product = some (record {
      id = ids.format row.p_id;
      name = row.p_name;
      description = row.p_description;
      price = row.p_price;
      stock = row.p_stock;
      category = row.p_category;
      image_url = row.p_image_url;
      created_at = row.p_created_at;
      updated_at = row.p_updated_at;
    });
  }

  unfoldable pub get_deal : ProductHandler → String → Handle DealResponse
  get_deal h id_str w = elim (ids.parse id_str) [
    | err e ↦ (refuse status_bad_request "Invalid deal ID", w)
    | ok id ↦
        let (r, w') = h.repo.get_deal_by_id id w in
        elim r [
          | err e ↦ (refuse status_not_found "Deal not found", w')
          | ok row ↦ (reply status_ok (deal_response row), w')
        ]
  ]

  -- `now` is what `time.Now()` gives.
  unfoldable pub list_active_deals :
      (String → Option ℤ) → ProductHandler → ℕ → String → String → Handle DealListResponse
  list_active_deals atoi h now limit_text skip_text w =
      let limit = int_param atoi limit_text (pos 20) in
      let offset = int_param atoi skip_text (pos 0) in
      let (r, w') = h.repo.list_active_deals now limit offset w in
      elim r [
        | err e ↦ (refuse status_internal_server_error (error_text e), w')
        | ok rows ↦
            let (n, w'') = h.repo.count_active_deals now w' in
            (
              reply status_ok (record {
                items = map deal_response rows;
                total = counted n;
                limit = limit;
                skip = offset;
              }),
              w'',
            )
      ]
