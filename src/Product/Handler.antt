-- ===== src/Product/Handler.antt =====
-- The HTTP handlers of products, services/product/go/internal/handler/product.go. `c.Bind` and
-- `strconv.Atoi` are arguments: the request that the first makes of the body, if it does, and the
-- number that the second reads in a text. The error of an answer is the text under the key `error`.
pub mod Stock
pub mod Over
pub mod Listing
pub mod Overwrites
pub mod Deals
pub mod Hotdeals
use text.Mathlib.Text.{◌==◌ as str_eq}
use flash_deals.Base.{
  ℕ, ℤ, pos, wrap32, String, Bool, Option, none, some, List, map, Uuid, UuidText, Result, ok, err,
  if◌then◌else◌,
}
use flash_deals.Http.{
  Response, reply, refuse, status_ok, status_created, status_bad_request, status_not_found,
  status_internal_server_error,
}
use flash_deals.Product.State.{ProductProduct, ProductWorld, Error, error_text}
use flash_deals.Product.Queries.{CreateProductParams, UpdateProductParams}
use flash_deals.Product.Repository.{ProductRepository}
use flash_deals.Product.Hotdeal.{HotdealRepository}

pub record ProductHandler : Type 0 where
  pub repo : ProductRepository
  pub hotdeal_repo : Option HotdealRepository

-- A handler with its request given.
abbrev pub Handle : Type 0 → Type 0
Handle A = ProductWorld → Response String A × ProductWorld

pub record CreateProductRequest : Type 0 where
  pub name : String
  pub description : Option String
  pub price : ℤ
  pub stock : ℤ
  pub category : Option String
  pub image_url : Option String

pub record UpdateProductRequest : Type 0 where
  pub name : Option String
  pub description : Option String
  pub price : Option ℤ
  pub category : Option String
  pub image_url : Option String

pub record ProductResponse : Type 0 where
  pub id : String
  pub name : String
  pub description : Option String
  pub price : ℤ
  pub stock : ℤ
  pub category : Option String
  pub image_url : Option String
  pub created_at : ℕ
  pub updated_at : ℕ

pub record ProductListResponse : Type 0 where
  pub items : List ProductResponse
  pub total : ℤ
  pub limit : ℤ
  pub skip : ℤ

abbrev pub create_params : CreateProductRequest → CreateProductParams
create_params req = record {
  name = req.name;
  description = req.description;
  price = req.price;
  stock = req.stock;
  category = req.category;
  image_url = req.image_url;
}

-- What a Go variable has that is never assigned.
abbrev pub or_zero : {A : Type 0} → A → Option A → A
or_zero zero_value none = zero_value
or_zero zero_value (some a) = a

abbrev pub update_params : Uuid → UpdateProductRequest → UpdateProductParams
update_params id req = record {
  id = id;
  name = or_zero "" req.name;
  description = req.description;
  price = or_zero (pos 0) req.price;
  category = req.category;
  image_url = req.image_url;
}

-- `total, _ = ...`: an error leaves the zero value.
abbrev pub counted : Result Error ℤ → ℤ
counted (ok n) = n
counted (err e) = pos 0

module _ (atoi : String → Option ℤ) where
  -- `limit` and `skip`: a text that is no number leaves the default.
  abbrev pub int_param : String → ℤ → ℤ
  int_param t default =
      if str_eq t ""
      then default
      else (elim (atoi t) [ none ↦ default | some parsed ↦ wrap32 parsed ])

-- The two branches of `ListProducts`: the page, and the number of all.
unfoldable pub listed :
    ProductHandler
    → String
    → ℤ
    → ℤ
    → ProductWorld
    → Result Error (List ProductProduct × ℤ) × ProductWorld
listed h category limit offset w =
    let any_category : Bool = str_eq category "" in
    let (r, w') =
      (if any_category
        then h.repo.list_products limit offset w
        else h.repo.list_products_by_category category limit offset w) in
    elim r [
      | err e ↦ (err e, w')
      | ok products ↦
          let (n, w'') =
            (if any_category
              then h.repo.count_products w'
              else h.repo.count_products_by_category category w') in
          (ok (products, counted n), w'')
    ]

module _ (ids : UuidText) where
  unfoldable pub to_product_response : ProductProduct → ProductResponse
  to_product_response p = record {
    id = ids.format p.id;
    name = p.name;
    description = p.description;
    price = p.price;
    stock = p.stock;
    category = p.category;
    image_url = p.image_url;
    created_at = p.created_at;
    updated_at = p.updated_at;
  }

  unfoldable pub create_product :
      ProductHandler → Option CreateProductRequest → Handle ProductResponse
  create_product h body w = elim body [
    | none ↦ (refuse status_bad_request "Invalid request body", w)
    | some req ↦
        let (r, w') = h.repo.create_product (create_params req) w in
        elim r [
          | err e ↦ (refuse status_internal_server_error (error_text e), w')
          | ok p ↦ (reply status_created (to_product_response p), w')
        ]
  ]

  unfoldable pub get_product : ProductHandler → String → Handle ProductResponse
  get_product h id_str w = elim (ids.parse id_str) [
    | err e ↦ (refuse status_bad_request "Invalid product ID", w)
    | ok id ↦
        let (r, w') = h.repo.get_product_by_id id w in
        elim r [
          | err e ↦ (refuse status_not_found "Product not found", w')
          | ok p ↦ (reply status_ok (to_product_response p), w')
        ]
  ]

  unfoldable pub list_products :
      (String → Option ℤ) → ProductHandler → String → String → String → Handle ProductListResponse
  list_products atoi h category limit_text skip_text w =
      let limit = int_param atoi limit_text (pos 20) in
      let offset = int_param atoi skip_text (pos 0) in
      let (r, w') = listed h category limit offset w in
      elim r [
        | err e ↦ (refuse status_internal_server_error (error_text e), w')
        | ok (products, total) ↦ (
          reply status_ok (record {
            items = map to_product_response products;
            total = total;
            limit = limit;
            skip = offset;
          }),
          w',
        )
      ]

  unfoldable pub update_product :
      ProductHandler → String → Option UpdateProductRequest → Handle ProductResponse
  update_product h id_str body w = elim (ids.parse id_str) [
    | err e ↦ (refuse status_bad_request "Invalid product ID", w)
    | ok id ↦ elim body [
      | none ↦ (refuse status_bad_request "Invalid request body", w)
      | some req ↦
          let (r, w') = h.repo.update_product (update_params id req) w in
          elim r [
            | err e ↦ (refuse status_not_found "Product not found", w')
            | ok p ↦ (reply status_ok (to_product_response p), w')
          ]
    ]
  ]
