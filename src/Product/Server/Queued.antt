-- ===== src/Product/Server/Queued.antt =====
-- The update of a stock in the table, through the queue.
use mathlib.Core.Path.{subst}
use flash_deals.Base.{
  ◌==◌, ℤ, pos, negsuc, ◌+ℤ◌, ◌≤ℤ◌, add32, add32_exact, ltb_ℤ, int_laws, true, false, if◌then◌else◌,
  ◌≡◌, refl, sym, Option, none, some, List, [], Uuid, inl, inr, arith, Bool-cases,
}
use flash_deals.Rpc.Stock.{Shift}
use flash_deals.Product.State.{ProductProduct, ProductWorld, Wait}
use flash_deals.Product.Queries.{find_product, set_stock}
use flash_deals.Product.Repository.{db_repository}
use flash_deals.Product.Repository.Locking.{
  locked, locked_low, locked_room, with_stock, find_product-with_stock, update_stock_with_lock_lem,
}
use flash_deals.Product.Hotdeal.{HotdealRepository, stock_at}
use flash_deals.Product.StockQueue.{queue_update_stock}
use flash_deals.Product.Server.{queued_reply, update_queued_stock}
use flash_deals.Product.Server.View.{
  IsCalm, IsKnown, server_view, Stocks, IsChange, InStock, active, redis_stock,
}

-- A known product stays known when a stock is written.
pub IsKnown-with_stock :
    (j id : Uuid) (stock : ℤ) (w : ProductWorld)
    → IsKnown j w
    → IsKnown j (record w { db = with_stock id stock w.db })
IsKnown-with_stock j id stock w (p, e) = (
  (if j == id then set_stock stock w.db.clock p else p),
  ground (arith, find_product-with_stock j id stock w.db, e),
)

below : (n : ℤ) → ltb_ℤ n (pos 0) ≡ true → n ≤ℤ negsuc 0
below n h = ground arith

not_below : (n : ℤ) → ltb_ℤ n (pos 0) ≡ false → pos 0 ≤ℤ n
not_below n h = ground arith

module _ (h : Option HotdealRepository) where
  -- The tables and the view after a write of the stock of one product that Redis does not have.
  written-Shift :
      (id : Uuid) (delta : ℤ) (w : ProductWorld) (p : ProductProduct)
      → IsCalm h w
      → redis_stock (active h) (stock_at id w.redis) ≡ none
      → find_product id w.db ≡ some p
      → InStock (p.stock +ℤ delta)
      → Shift (server_view h) id delta w (record w { db = with_stock id (p.stock +ℤ delta) w.db })
  written-Shift id delta w p c absent e b = record {
    valid = record {
      no_faults = c.no_faults;
      no_cancels = c.no_cancels;
      products = λ j q k.
          ground (arith, find_product-with_stock j id (p.stock +ℤ delta) w.db, c.products j q);
      stocks = λ j n k. ((c.stocks j n k).0, IsKnown-with_stock j id _ w (c.stocks j n k).1);
    };
    known = λ j k. IsKnown-with_stock j id _ w k;
    at = λ j. ground (arith, find_product-with_stock j id (p.stock +ℤ delta) w.db);
  }

  -- What the queue answers when no call fails.
  queue_update_stock_lem :
      (id : Uuid) (delta : ℤ) (w : ProductWorld)
      → IsCalm h w
      → queue_update_stock db_repository id delta w ≡ locked id delta w
  unfolding queue_update_stock
  queue_update_stock_lem id delta w c =
      subst
        (λ (s : List Wait).
          queue_update_stock db_repository id delta (record w { waits = s })
          ≡ locked id delta (record w { waits = s }))
        (sym c.no_cancels)
        (update_stock_with_lock_lem id delta (record w { waits = [] }) c.no_faults)

  locked-Stocks :
      (id : Uuid) (delta : ℤ) (w : ProductWorld) (o : Option ProductProduct)
      → IsCalm h w
      → IsChange h id delta w
      → redis_stock (active h) (stock_at id w.redis) ≡ none
      → find_product id w.db ≡ o
      → Stocks h id delta w (queued_reply (locked id delta w))
  locked-Stocks id delta w none c b absent e = rw (e, locked, queued_reply, Stocks) (refl, inl e)
  locked-Stocks id delta w (some p) c b absent e =
      elim (Bool-cases (ltb_ℤ (add32 p.stock delta) (pos 0))) [
        | inl low ↦
            subst (λ q. Stocks h id delta w (queued_reply q)) (sym (locked_low id delta w e low))
              (refl, inr (too_low low))
        | inr room ↦
            subst (λ q. Stocks h id delta w (queued_reply q)) (sym (locked_room id delta w e room))
              (
                subst
                    (λ n. Shift (server_view h) id delta w (record w { db = with_stock id n w.db }))
                    (sym exact) (written-Shift id delta w p c absent e (fits room)),
                IsKnown-with_stock id id (add32 p.stock delta) w (p, e),
              )
      ]
    where
      shown : (server_view h).stock w id ≡ p.stock
      shown = ground (arith, absent, e)

      exact : add32 p.stock delta ≡ p.stock +ℤ delta
      exact = add32_exact p.stock delta (grind (int_laws, c.products id p e, b, shown))

      too_low :
          ltb_ℤ (add32 p.stock delta) (pos 0) ≡ true
          → (server_view h).stock w id +ℤ delta ≤ℤ negsuc 0
      too_low low = rw shown (below (p.stock +ℤ delta) (rw exact at low))

      fits : ltb_ℤ (add32 p.stock delta) (pos 0) ≡ false → InStock (p.stock +ℤ delta)
      fits room = (not_below (p.stock +ℤ delta) (rw exact at room), rw shown at b.2)

  pub update_queued_stock-Stocks :
      (id : Uuid) (delta : ℤ) (w : ProductWorld)
      → IsCalm h w
      → IsChange h id delta w
      → redis_stock (active h) (stock_at id w.redis) ≡ none
      → Stocks h id delta w (update_queued_stock db_repository id delta w)
  unfolding update_queued_stock
  update_queued_stock-Stocks id delta w c b absent =
      subst (λ p. Stocks h id delta w (queued_reply p)) (sym (queue_update_stock_lem id delta w c))
        (locked-Stocks id delta w (find_product id w.db) c b absent refl)
