-- ===== src/Product/Queries.antt =====
-- The SQL statements of services/product/go/internal/db/query.sql.go, on the tables, with the
-- constraints of services/product/db/schema.sql.
pub mod Deals
pub mod Lists
use Prim.Native.String.{count}
use flash_deals.Base.{
  ℕ, ◌+◌, ℤ, pos, ltb_ℤ, leb_ℤ, String, Bool, true, ◌&&◌, Option, none, some, ◌∷◌, Uuid, Result, ok,
  err, Exec, leb, find_by, update_by, if◌then◌else◌,
}
use flash_deals.Product.State.{ProductProduct, Db, Error, no_rows, message}

-- A value of `VARCHAR(n)`, or NULL.
abbrev pub fits : ℕ → String → Bool
fits n s = leb (count s) n

abbrev pub fits? : ℕ → Option String → Bool
fits? n none = true
fits? n (some s) = fits n s

abbrev pub violation : Error
violation = message "new row violates a constraint"

abbrev pub or_no_rows : {A : Type 0} → Option A → Result Error A
or_no_rows none = err no_rows
or_no_rows (some a) = ok a

pub record CreateProductParams : Type 0 where
  pub name : String
  pub description : Option String
  pub price : ℤ
  pub stock : ℤ
  pub category : Option String
  pub image_url : Option String

-- The CHECKs of the table `product.products`.
abbrev pub valid_product : ProductProduct → Bool
valid_product p =
    leb_ℤ (pos 0) p.price && leb_ℤ (pos 0) p.stock && fits 200 p.name && fits? 50 p.category

unfoldable pub create_product : CreateProductParams → Exec Db Error ProductProduct
create_product arg db =
    if valid_product row
    then (ok row, record db { products = row ∷ db.products; next_id = db.next_id + 1 })
    else (err violation, db)
  where
    row : ProductProduct
    row = record {
      id = db.next_id;
      name = arg.name;
      description = arg.description;
      price = arg.price;
      stock = arg.stock;
      category = arg.category;
      image_url = arg.image_url;
      created_at = db.clock;
      updated_at = db.clock;
    }

abbrev pub product_id : ProductProduct → Uuid
product_id p = p.id

abbrev pub find_product : Uuid → Db → Option ProductProduct
find_product id db = find_by product_id id db.products

unfoldable pub get_product_by_id : Uuid → Exec Db Error ProductProduct
get_product_by_id id db = (or_no_rows (find_product id db), db)

pub record UpdateProductParams : Type 0 where
  pub id : Uuid
  pub name : String
  pub description : Option String
  pub price : ℤ
  pub category : Option String
  pub image_url : Option String

-- SQL's COALESCE of two values.
abbrev pub coalesce : {A : Type 0} → Option A → A → A
coalesce none b = b
coalesce (some a) b = a

abbrev pub coalesce? : {A : Type 0} → Option A → Option A → Option A
coalesce? none b = b
coalesce? (some a) b = some a

-- `name` and `price` are a Go string and a Go int32, so they are never NULL.
abbrev pub updated_product : UpdateProductParams → ℕ → ProductProduct → ProductProduct
updated_product arg now p = record p {
  name = coalesce (some arg.name) p.name;
  description = coalesce? arg.description p.description;
  price = coalesce (some arg.price) p.price;
  category = coalesce? arg.category p.category;
  image_url = coalesce? arg.image_url p.image_url;
  updated_at = now;
}

unfoldable pub update_product : UpdateProductParams → Exec Db Error ProductProduct
update_product arg db = elim (find_product arg.id db) [
  | none ↦ (err no_rows, db)
  | some p ↦
      let row = updated_product arg db.clock p in
      if valid_product row
      then (
        ok row,
        record db {
          products = update_by product_id arg.id (updated_product arg db.clock) db.products;
        },
      )
      else (err violation, db)
]

pub record GetStockForUpdateRow : Type 0 where
  pub id : Uuid
  pub stock : ℤ

unfoldable pub get_stock_for_update : Uuid → Exec Db Error GetStockForUpdateRow
get_stock_for_update id db = elim (find_product id db) [
  | none ↦ (err no_rows, db)
  | some p ↦ (ok (record { id = p.id; stock = p.stock }), db)
]

pub record UpdateStockRow : Type 0 where
  pub id : Uuid
  pub stock : ℤ
  pub updated_at : ℕ

abbrev pub set_stock : ℤ → ℕ → ProductProduct → ProductProduct
set_stock stock now p = record p { stock = stock; updated_at = now }

unfoldable pub update_stock : Uuid → ℤ → Exec Db Error UpdateStockRow
update_stock id stock db = elim (find_product id db) [
  | none ↦ (err no_rows, db)
  | some p ↦ if ltb_ℤ stock (pos 0) then (err violation, db) else (
    ok (record { id = p.id; stock = stock; updated_at = db.clock }),
    record db { products = update_by product_id id (set_stock stock db.clock) db.products },
  )
]
