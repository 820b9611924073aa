-- ===== src/Product/Repository/Touches.antt =====
-- Updates that change the row of one product.
use mathlib.Core.Path.{subst}
use flash_deals.Base.{
  ◌==◌, ℤ, pos, add32, ltb_ℤ, true, false, ◌≡◌, refl, sym, ap, ◌∙◌, Option, none, some, [], Uuid,
  Result, ok, err, Exec, arith, Bool-cases, inl, inr, if◌then◌else◌, find_by-update_by, update_by,
}
use flash_deals.Product.State.{ProductProduct, ProductWorld, Db, Error, no_rows, on_db}
use flash_deals.Product.Queries
use flash_deals.Product.Queries.{
  UpdateProductParams, UpdateStockRow, find_product, product_id, valid_product, updated_product,
  set_stock, violation,
}
use flash_deals.Product.Repository
use flash_deals.Product.Repository.Locking.{
  locked, locked-none, locked_low, locked_room, with_stock, find_product-with_stock,
  update_stock_with_lock_lem,
}

-- What an update of one product does to the world: an error does nothing, and a success changes the
-- tables, but no other product's row.
abbrev pub TouchesOne : {A : Type 0} → Uuid → ProductWorld → Result Error A × ProductWorld → Type 0
TouchesOne id w (ok a, w') =
    (d : Db) × (w' ≡ record w { db = d })
    × ((j : Uuid) → (j == id) ≡ false → find_product j d ≡ find_product j w.db)
TouchesOne id w (err e, w') = w' ≡ w

-- The same of a query: on an error the tables are as they were.
abbrev pub TouchesRow : {A : Type 0} → Uuid → Db → Result Error A × Db → Type 0
TouchesRow id db (ok a, d) = (j : Uuid) → (j == id) ≡ false → find_product j d ≡ find_product j db
TouchesRow id db (err e, d) = d ≡ db

pub on_db_calm :
    {A : Type 0} (q : Exec Db Error A) (w : ProductWorld)
    → w.script ≡ []
    → on_db q w ≡ ((q w.db).0, record w { db = (q w.db).1 })
on_db_calm q w calm = ground (arith, calm)

pub on_db-TouchesOne :
    {A : Type 0} (id : Uuid) (q : Exec Db Error A) (w : ProductWorld)
    → w.script ≡ []
    → TouchesRow id w.db (q w.db)
    → TouchesOne id w (on_db q w)
on_db-TouchesOne {A} id q w calm t =
    subst (TouchesOne id w) (sym (on_db_calm q w calm)) (go (q w.db) t)
  where
    go :
        (p : Result Error A × Db)
        → TouchesRow id w.db p
        → TouchesOne id w (p.0, record w { db = p.1 })
    go (ok a, d) same = (d, refl, same)
    go (err e, d) same = ap (λ db. record w { db = db }) same

pub update_stock_with_lock-TouchesOne :
    (id : Uuid) (delta : ℤ) (w : ProductWorld)
    → w.script ≡ []
    → TouchesOne id w (Repository.update_stock_with_lock id delta w)
update_stock_with_lock-TouchesOne id delta w calm =
    subst (TouchesOne id w) (sym (update_stock_with_lock_lem id delta w calm))
      (go (find_product id w.db) refl)
  where
    go :
        (o : Option ProductProduct) → find_product id w.db ≡ o → TouchesOne id w (locked id delta w)
    go none e = subst (TouchesOne id w) (sym (locked-none id delta w e)) refl
    go (some p) e = elim (Bool-cases (ltb_ℤ (add32 p.stock delta) (pos 0))) [
      | inl low ↦ subst (TouchesOne id w) (sym (locked_low id delta w e low)) refl
      | inr room ↦ subst (TouchesOne id w) (sym (locked_room id delta w e room)) (
        with_stock id (add32 p.stock delta) w.db,
        refl,
        λ j other. ground (arith, other, find_product-with_stock j id (add32 p.stock delta) w.db),
      )
    ]

-- The three ways that the UPDATE of a stock ends.
module _ (id : Uuid) (stock : ℤ) (db : Db) where
  pub update_stock_none :
      find_product id db ≡ none → Queries.update_stock id stock db ≡ (err no_rows, db)
  unfolding Queries.update_stock
  update_stock_none e = ground (arith, e)

  pub update_stock_low :
      (p : ProductProduct)
      → find_product id db ≡ some p
      → ltb_ℤ stock (pos 0) ≡ true
      → Queries.update_stock id stock db ≡ (err violation, db)
  unfolding Queries.update_stock
  update_stock_low p e low = ground (arith, e, low)

  pub update_stock_some :
      (p : ProductProduct)
      → find_product id db ≡ some p
      → ltb_ℤ stock (pos 0) ≡ false
      → Queries.update_stock id stock db
        ≡ (ok (record { id = p.id; stock = stock; updated_at = db.clock }), with_stock id stock db)
  unfolding Queries.update_stock
  update_stock_some p e room = ground (arith, e, room)

  pub update_stock-TouchesRow : TouchesRow id db (Queries.update_stock id stock db)
  update_stock-TouchesRow = go (find_product id db) refl
    where
      go :
          (o : Option ProductProduct)
          → find_product id db ≡ o
          → TouchesRow id db (Queries.update_stock id stock db)
      go none e = subst (TouchesRow id db) (sym (update_stock_none e)) refl
      go (some p) e = elim (Bool-cases (ltb_ℤ stock (pos 0))) [
        | inl low ↦ subst (TouchesRow id db) (sym (update_stock_low p e low)) refl
        | inr room ↦
            subst (TouchesRow id db) (sym (update_stock_some p e room))
              (λ j other. ground (arith, other, find_product-with_stock j id stock db))
      ]

-- The three ways that the UPDATE of a product ends.
module _ (arg : UpdateProductParams) (db : Db) where
  abbrev pub with_product : Db
  with_product = record db {
    products = update_by product_id arg.id (updated_product arg db.clock) db.products;
  }

  pub update_product_none :
      find_product arg.id db ≡ none → Queries.update_product arg db ≡ (err no_rows, db)
  unfolding Queries.update_product
  update_product_none e = ground (arith, e)

  pub update_product_bad :
      (p : ProductProduct)
      → find_product arg.id db ≡ some p
      → valid_product (updated_product arg db.clock p) ≡ false
      → Queries.update_product arg db ≡ (err violation, db)
  unfolding Queries.update_product
  update_product_bad p e bad = rw (Queries.update_product, e, bad)

  pub update_product_some :
      (p : ProductProduct)
      → find_product arg.id db ≡ some p
      → valid_product (updated_product arg db.clock p) ≡ true
      → Queries.update_product arg db ≡ (ok (updated_product arg db.clock p), with_product)
  unfolding Queries.update_product
  update_product_some p e good = rw (Queries.update_product, e, good)

  pub find_product-with_product :
      (j : Uuid)
      → find_product j with_product ≡ (
          if j == arg.id
          then (elim (find_product j db) [
            | none ↦ none
            | some p ↦ some (updated_product arg db.clock p)
          ])
          else find_product j db)
  find_product-with_product j =
      find_by-update_by product_id j arg.id (updated_product arg db.clock) db.products (λ p. refl)

  pub update_product-TouchesRow : TouchesRow arg.id db (Queries.update_product arg db)
  update_product-TouchesRow = go (find_product arg.id db) refl
    where
      go :
          (o : Option ProductProduct)
          → find_product arg.id db ≡ o
          → TouchesRow arg.id db (Queries.update_product arg db)
      go none e = subst (TouchesRow arg.id db) (sym (update_product_none e)) refl
      go (some p) e = elim (Bool-cases (valid_product (updated_product arg db.clock p))) [
        | inr bad ↦ subst (TouchesRow arg.id db) (sym (update_product_bad p e bad)) refl
        | inl good ↦
            subst (TouchesRow arg.id db) (sym (update_product_some p e good))
              (λ j other. find_product-with_product j ∙ ground (arith, other))
      ]
