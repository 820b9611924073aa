-- ===== src/Product/Queries/Deals.antt =====
-- The statements on hot deals of services/product/go/internal/db/query.sql.go.
use flash_deals.Base.{
  ℕ, ◌+◌, ℤ, pos, leb_ℤ, String, Bool, ◌&&◌, Option, none, some, ◌∷◌, Uuid, ok, err, Exec, ltb,
  find_by, if◌then◌else◌,
}
use flash_deals.Product.State.{ProductProduct, ProductDeal, Db, Error, no_rows}
use flash_deals.Product.Queries.{violation, find_product}

pub record CreateDealParams : Type 0 where
  pub product_id : Uuid
  pub deal_price : ℤ
  pub deal_stock : ℤ
  pub remaining_stock : ℤ
  pub starts_at : ℕ
  pub ends_at : ℕ

-- The CHECKs of the table `product.deals`.
abbrev valid_deal : CreateDealParams → Bool
valid_deal d =
    leb_ℤ (pos 0) d.deal_price
    && leb_ℤ (pos 1) d.deal_stock
    && leb_ℤ (pos 0) d.remaining_stock
    && ltb d.starts_at d.ends_at
    && leb_ℤ d.remaining_stock d.deal_stock

abbrev deal_row : CreateDealParams → Db → ProductDeal
deal_row arg db = record {
  id = db.next_id;
  product_id = arg.product_id;
  deal_price = arg.deal_price;
  deal_stock = arg.deal_stock;
  remaining_stock = arg.remaining_stock;
  starts_at = arg.starts_at;
  ends_at = arg.ends_at;
  created_at = db.clock;
}

-- The product must exist: a foreign key.
unfoldable pub create_deal : CreateDealParams → Exec Db Error ProductDeal
create_deal arg db = elim (find_product arg.product_id db) [
  | none ↦ (err violation, db)
  | some _ ↦
      if valid_deal arg
      then (
        ok (deal_row arg db),
        record db { deals = deal_row arg db ∷ db.deals; next_id = db.next_id + 1 },
      )
      else (err violation, db)
]

pub record GetDealByIdRow : Type 0 where
  pub id : Uuid
  pub product_id : Uuid
  pub deal_price : ℤ
  pub deal_stock : ℤ
  pub remaining_stock : ℤ
  pub starts_at : ℕ
  pub ends_at : ℕ
  pub created_at : ℕ
  pub p_id : Uuid
  pub p_name : String
  pub p_description : Option String
  pub p_price : ℤ
  pub p_stock : ℤ
  pub p_category : Option String
  pub p_image_url : Option String
  pub p_created_at : ℕ
  pub p_updated_at : ℕ

abbrev pub joined_row : ProductDeal → ProductProduct → GetDealByIdRow
joined_row d p = record {
  id = d.id;
  product_id = d.product_id;
  deal_price = d.deal_price;
  deal_stock = d.deal_stock;
  remaining_stock = d.remaining_stock;
  starts_at = d.starts_at;
  ends_at = d.ends_at;
  created_at = d.created_at;
  p_id = p.id;
  p_name = p.name;
  p_description = p.description;
  p_price = p.price;
  p_stock = p.stock;
  p_category = p.category;
  p_image_url = p.image_url;
  p_created_at = p.created_at;
  p_updated_at = p.updated_at;
}

abbrev pub deal_id : ProductDeal → Uuid
deal_id d = d.id

-- The join of a deal with its product.
unfoldable pub get_deal_by_id : Uuid → Exec Db Error GetDealByIdRow
get_deal_by_id id db = elim (find_by deal_id id db.deals) [
  | none ↦ (err no_rows, db)
  | some d ↦ elim (find_product d.product_id db) [
    | none ↦ (err no_rows, db)
    | some p ↦ (ok (joined_row d p), db)
  ]
]
