-- ===== src/Product/Repository/Locking.antt =====
-- `UpdateStockWithLock`: under its lock the stock changes by the delta, or nothing changes.
use mathlib.Core.Path.{subst}
use flash_deals.Base.{
  ◌==◌, ℤ, pos, add32, ltb_ℤ, if◌then◌else◌, true, false, ◌≡◌, refl, sym, Outcome, none, some, List,
  [], Uuid, Result, ok, err, arith, find_by-update_by, update_by, Option-cases, Bool-cases, inl,
  inr,
}
use flash_deals.Product.State.{ProductProduct, ProductWorld, Db, Error, no_rows, insufficient}
use flash_deals.Product.Queries
use flash_deals.Product.Queries.{product_id, find_product, set_stock, UpdateStockRow}
use flash_deals.Product.Repository.{update_stock_with_lock, write_stock}

-- The tables with the stock of one product written.
abbrev pub with_stock : Uuid → ℤ → Db → Db
with_stock id stock db = record db {
  products = update_by product_id id (set_stock stock db.clock) db.products;
}

pub find_product-with_stock :
    (j id : Uuid) (stock : ℤ) (db : Db)
    → find_product j (with_stock id stock db) ≡ (
        if j == id
        then (elim (find_product j db) [ none ↦ none | some p ↦ some (set_stock stock db.clock p) ])
        else find_product j db)
find_product-with_stock j id stock db =
    find_by-update_by product_id j id (set_stock stock db.clock) db.products (λ p. refl)

-- A product that is there has the stock afterwards.
pub with_stock-find_product :
    (id : Uuid) (stock : ℤ) (db : Db) (p : ProductProduct)
    → find_product id db ≡ some p
    → find_product id (with_stock id stock db) ≡ some (set_stock stock db.clock p)
with_stock-find_product id stock db p e = ground (arith, e, find_product-with_stock id id stock db)

-- What the update does when no call of the database fails.
abbrev pub locked : Uuid → ℤ → ProductWorld → Result Error UpdateStockRow × ProductWorld
locked id delta w = elim (find_product id w.db) [
  | none ↦ (err no_rows, w)
  | some p ↦
      if ltb_ℤ (add32 p.stock delta) (pos 0) then (err (insufficient p.stock delta), w) else (
        ok (record { id = p.id; stock = add32 p.stock delta; updated_at = w.db.clock }),
        record w { db = with_stock id (add32 p.stock delta) w.db },
      )
]

-- The world with no failure to come.
abbrev pub calm : ProductWorld → ProductWorld
calm w = record w { script = [] }

write_stock-calm :
    (id : Uuid) (p : ProductProduct) (stock : ℤ) (w : ProductWorld)
    → find_product id w.db ≡ some p
    → ltb_ℤ stock (pos 0) ≡ false
    → write_stock id stock w.db (calm w) ≡ (
      ok (record { id = p.id; stock = stock; updated_at = w.db.clock }),
      record (calm w) { db = with_stock id stock w.db },
    )
unfolding write_stock Queries.update_stock
write_stock-calm id p stock w f s = ground (arith, f, s)

update_stock_with_lock-calm :
    (id : Uuid) (delta : ℤ) (w : ProductWorld)
    → update_stock_with_lock id delta (calm w) ≡ locked id delta (calm w)
unfolding update_stock_with_lock Queries.get_stock_for_update
update_stock_with_lock-calm id delta w = elim (Option-cases (find_product id w.db)) [
  | inl e ↦ ground (arith, e)
  | inr (p, e) ↦ elim (Bool-cases (ltb_ℤ (add32 p.stock delta) (pos 0))) [
    | inl low ↦ ground (arith, e, low)
    | inr room ↦ ground (arith, e, room, write_stock-calm id p (add32 p.stock delta) w e room)
  ]
]

-- If no call of the database fails, the update is `locked`: an unknown product is an error, a stock
-- that would fall below zero is an error with both numbers in it, both with nothing changed, and else
-- the new stock is written and returned.
pub update_stock_with_lock_lem :
    (id : Uuid) (delta : ℤ) (w : ProductWorld)
    → w.script ≡ []
    → update_stock_with_lock id delta w ≡ locked id delta w
update_stock_with_lock_lem id delta w h =
    subst
      (λ (s : List (Outcome Error)).
        update_stock_with_lock id delta (record w { script = s })
        ≡ locked id delta (record w { script = s }))
      (sym h) (update_stock_with_lock-calm id delta w)

pub locked-none :
    (id : Uuid) (delta : ℤ) (w : ProductWorld)
    → find_product id w.db ≡ none
    → locked id delta w ≡ (err no_rows, w)
locked-none id delta w e = ground (arith, e)

module _ (id : Uuid) (delta : ℤ) (w : ProductWorld) {p : ProductProduct}
    (e : find_product id w.db ≡ some p) where
  pub locked_low :
      ltb_ℤ (add32 p.stock delta) (pos 0) ≡ true
      → locked id delta w ≡ (err (insufficient p.stock delta), w)
  locked_low low = ground (arith, e, low)

  pub locked_room :
      ltb_ℤ (add32 p.stock delta) (pos 0) ≡ false
      → locked id delta w ≡ (
        ok (record { id = p.id; stock = add32 p.stock delta; updated_at = w.db.clock }),
        record w { db = with_stock id (add32 p.stock delta) w.db },
      )
  locked_room room = ground (arith, e, room)
