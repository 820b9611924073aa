-- ===== src/Product/Queries/Lists.antt =====
-- The lists and counts of services/product/go/internal/db/query.sql.go.
pub mod Paging
use text.Mathlib.Text.{◌==◌ as str_eq}
use flash_deals.Base.{
  ℕ, ℤ, pos, leb, ltb_ℤ, String, Bool, false, ◌&&◌, Option, none, some, List, [], ◌∷◌, Result, ok,
  err, Exec, length, filter_by, order_by_desc, page, if◌then◌else◌,
}
use flash_deals.Product.State.{ProductProduct, ProductDeal, Db, Error, message}
use flash_deals.Product.Queries.{find_product}
use flash_deals.Product.Queries.Deals.{GetDealByIdRow, joined_row}

abbrev pub bad_page : Error
bad_page = message "LIMIT and OFFSET must not be negative"

abbrev pub or_bad_page : {A : Type 0} → Option (List A) → Result Error (List A)
or_bad_page none = err bad_page
or_bad_page (some rows) = ok rows

abbrev pub created : ProductProduct → ℕ
created p = p.created_at

-- `category = $1`: a NULL is no match.
abbrev pub in_category : Option String → ProductProduct → Bool
in_category none p = false
in_category (some c) p = elim p.category [ none ↦ false | some d ↦ str_eq d c ]

pub record ListProductsParams : Type 0 where
  pub limit : ℤ
  pub offset : ℤ

unfoldable pub list_products : ListProductsParams → Exec Db Error (List ProductProduct)
list_products arg db =
    (or_bad_page (page arg.limit arg.offset (order_by_desc created db.products)), db)

pub record ListProductsByCategoryParams : Type 0 where
  pub category : Option String
  pub limit : ℤ
  pub offset : ℤ

unfoldable pub list_products_by_category :
    ListProductsByCategoryParams → Exec Db Error (List ProductProduct)
list_products_by_category arg db = (
  or_bad_page (
      page arg.limit arg.offset
        (order_by_desc created (filter_by (in_category arg.category) db.products))),
  db,
)

unfoldable pub count_products : Exec Db Error ℤ
count_products db = (ok (pos (length db.products)), db)

unfoldable pub count_products_by_category : Option String → Exec Db Error ℤ
count_products_by_category c db = (ok (pos (length (filter_by (in_category c) db.products))), db)

-- `starts_at <= $1 AND ends_at >= $1 AND remaining_stock > 0`
abbrev pub is_active : ℕ → ProductDeal → Bool
is_active now d = leb d.starts_at now && leb now d.ends_at && ltb_ℤ (pos 0) d.remaining_stock

-- The Go struct has the fields of `GetDealByIDRow`.
abbrev pub ListActiveDealsRow : Type 0
ListActiveDealsRow = GetDealByIdRow

-- The join of each deal with its product.
abbrev pub with_products : Db → List ProductDeal → List ListActiveDealsRow
with_products db [] = []
with_products db (d ∷ ds) =
    let others = with_products db ds in
    elim (find_product d.product_id db) [ none ↦ others | some p ↦ joined_row d p ∷ others ]

abbrev pub starts : ListActiveDealsRow → ℕ
starts row = row.starts_at

pub record ListActiveDealsParams : Type 0 where
  pub starts_at : ℕ
  pub limit : ℤ
  pub offset : ℤ

unfoldable pub list_active_deals : ListActiveDealsParams → Exec Db Error (List ListActiveDealsRow)
list_active_deals arg db = (
  or_bad_page (
      page arg.limit arg.offset
        (order_by_desc starts (with_products db (filter_by (is_active arg.starts_at) db.deals)))),
  db,
)

unfoldable pub count_active_deals : ℕ → Exec Db Error ℤ
count_active_deals now db = (ok (pos (length (filter_by (is_active now) db.deals))), db)
