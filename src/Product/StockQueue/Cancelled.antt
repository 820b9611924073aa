-- ===== src/Product/StockQueue/Cancelled.antt =====
-- A caller that leaves while its request waits in the stock queue.
use mathlib.Core.Path.{subst}
use flash_deals.Base.{
  ℤ, pos, add32, ltb_ℤ, false, ◌≡◌, sym, some, List, [], ◌∷◌, Uuid, Result, err, arith,
}
use flash_deals.Product.State.{ProductProduct, ProductWorld, Error, message, Wait, gone_after}
use flash_deals.Product.Queries.{UpdateStockRow, find_product, set_stock}
use flash_deals.Product.Repository.{db_repository, update_stock_with_lock}
use flash_deals.Product.Repository.Locking.{
  locked_room, update_stock_with_lock_lem, find_product-with_stock,
}
use flash_deals.Product.StockQueue.{queue_update_stock}

-- A caller that leaves after its request is queued gets an error, and the stock changes nonetheless:
-- if the product is known, the new stock is not negative and no call of the database fails, then the
-- product has the new stock.
pub queue_update_stock-gone_after :
    (id : Uuid) (delta : ℤ) (w : ProductWorld) (later : List Wait) (p : ProductProduct)
    → w.waits ≡ gone_after ∷ later
    → w.script ≡ []
    → find_product id w.db ≡ some p
    → ltb_ℤ (add32 p.stock delta) (pos 0) ≡ false
    → ((queue_update_stock db_repository id delta w).0
        ≡ err (message "context cancelled while waiting for response"))
      × (find_product id (queue_update_stock db_repository id delta w).1.db
          ≡ some (set_stock (add32 p.stock delta) w.db.clock p))
unfolding queue_update_stock
queue_update_stock-gone_after id delta w later p left calm found room =
    (ground (arith, left), rw left after)
  where
    w' : ProductWorld
    w' = record w { waits = later }

    after :
        find_product id (update_stock_with_lock id delta w').1.db
        ≡ some (set_stock (add32 p.stock delta) w.db.clock p)
    after =
        subst
          (λ (r : Result Error UpdateStockRow × ProductWorld).
            find_product id r.1.db ≡ some (set_stock (add32 p.stock delta) w.db.clock p))
          (sym (update_stock_with_lock_lem id delta w' calm))
          (subst
            (λ (r : Result Error UpdateStockRow × ProductWorld).
              find_product id r.1.db ≡ some (set_stock (add32 p.stock delta) w.db.clock p))
            (sym (locked_room id delta w' found room))
            (ground (arith, find_product-with_stock id id (add32 p.stock delta) w.db, found)))
