-- ===== src/Product/Server/Promises.antt =====
-- The gRPC server keeps the promises that the order service relies on.
use mathlib.Core.Path.{subst}
use flash_deals.Base.{
  ℤ, pos, ◌+ℤ◌, ◌-ℤ◌, ◌≤ℤ◌, max_int32, neg32, neg32_exact, int_laws, Bool, true, false, ◌≡◌, refl,
  sym, Option, none, some, [], String, Uuid, UuidText, inl, inr, Result, ok, err, arith,
}
use flash_deals.Rpc.{Status, ProductMessage}
use flash_deals.Rpc.Stock.{IsQuantity, Shift, Same, Takes, Gives, StockLaws}
use flash_deals.Product.State.{ProductProduct, ProductWorld}
use flash_deals.Product.Queries
use flash_deals.Product.Queries.{find_product, or_no_rows}
use flash_deals.Product.Queries.Deals
use flash_deals.Product.Repository
use flash_deals.Product.Hotdeal.{HotdealRepository, stock_at, is_enabled}
use flash_deals.Product.Hotdeal.Script.{has_stock_lem}
use flash_deals.Product.Server.{
  get_product, get_deal, new_stock, answer_stock, update_stock, product_message, product_service,
}
use flash_deals.Product.Server.View.{
  db_server, IsCalm, IsKnown, server_view, Stocks, IsChange, InStock, redis_stock, shown_stock,
  active,
}
use flash_deals.Product.Server.Queued.{update_queued_stock-Stocks}
use flash_deals.Product.Server.Hot.{update_hotdeal_stock-Stocks}

-- The stock goes to Redis exactly if Redis has it.
new_stock-some :
    (h : HotdealRepository) (id : Uuid) (delta : ℤ) (w : ProductWorld) (o : Option ℤ)
    → IsCalm (some h) w
    → IsChange (some h) id delta w
    → stock_at id w.redis ≡ o
    → (e : Bool) → is_enabled h ≡ e
    → Stocks (some h) id delta w (new_stock (db_server (some h)) id delta w)
unfolding new_stock
new_stock-some h id delta w none c b key e on =
    subst (Stocks (some h) id delta w) (sym (ground (arith, has_stock_lem h id w c.no_faults, key)))
      (update_queued_stock-Stocks (some h) id delta w c b (ground (arith, key, on)))
new_stock-some h id delta w (some n) c b key false on =
    subst (Stocks (some h) id delta w)
      (sym (ground (arith, has_stock_lem h id w c.no_faults, key, on)))
      (update_queued_stock-Stocks (some h) id delta w c b (ground (arith, key, on)))
new_stock-some h id delta w (some n) c b key true on =
    subst (Stocks (some h) id delta w)
      (sym (ground (arith, has_stock_lem h id w c.no_faults, key, on)))
      (update_hotdeal_stock-Stocks h id delta n w c on key b)

new_stock-Stocks :
    (h : Option HotdealRepository) (id : Uuid) (delta : ℤ) (w : ProductWorld)
    → IsCalm h w
    → IsChange h id delta w
    → Stocks h id delta w (new_stock (db_server h) id delta w)
unfolding new_stock
new_stock-Stocks none id delta w c b = update_queued_stock-Stocks none id delta w c b refl
new_stock-Stocks (some h) id delta w c b =
    new_stock-some h id delta w (stock_at id w.redis) c b refl (is_enabled h) refl

-- The answer names a known product, and the state is as it was.
answer_stock_known :
    (ids : UuidText) (h : Option HotdealRepository) (id : Uuid) (n : ℤ) (w : ProductWorld)
    (p : ProductProduct)
    → w.script ≡ []
    → find_product id w.db ≡ some p
    → answer_stock ids (db_server h) id n w ≡ (ok (product_message ids p n), w)
unfolding answer_stock Repository.get_product_by_id Queries.get_product_by_id
answer_stock_known ids h id n w p calm e = ground (arith, calm, e)

-- With no failure of a call, for a delta above the least int32 and a stock that stays within int32,
-- `UpdateStock` changes the stock of its product alone, by its delta, or
-- it changes nothing and the product is unknown or has not enough.
pub update_stock-Stocks :
    (ids : UuidText) (h : Option HotdealRepository) (id : Uuid) (delta : ℤ) (w : ProductWorld)
    → IsCalm h w
    → IsChange h id delta w
    → Stocks h id delta w (update_stock ids (db_server h) (ids.format id) delta w)
unfolding update_stock
update_stock-Stocks ids h id delta w c b =
    subst (Stocks {A = ProductMessage} h id delta w) (sym parsed)
      (go (new_stock (db_server h) id delta w) (new_stock-Stocks h id delta w c b))
  where
    then_answer : Result Status ℤ × ProductWorld → Result Status ProductMessage × ProductWorld
    then_answer p = elim p.0 [
      | ok n ↦ answer_stock ids (db_server h) id n p.1
      | err st ↦ (err st, p.1)
    ]

    parsed :
        update_stock ids (db_server h) (ids.format id) delta w
        ≡ then_answer (new_stock (db_server h) id delta w)
    parsed = rw (update_stock, ids.parse_format id)

    go :
        (p : Result Status ℤ × ProductWorld)
        → Stocks h id delta w p
        → Stocks {A = ProductMessage} h id delta w (then_answer p)
    go (ok n, w') (shift, (p, e)) =
        subst (Stocks {A = ProductMessage} h id delta w)
          (sym (answer_stock_known ids h id n w' p shift.valid.no_faults e)) (shift, (p, e))
    go (err st, w') same = same

module _ (ids : UuidText) (h : Option HotdealRepository) where
  Same-refl : (w : ProductWorld) → IsCalm h w → Same (server_view h) w w
  Same-refl w c = record { valid = c; known = λ j k. k; at = λ j. refl }

  pub get_product-Same :
      (w : ProductWorld) (text : String)
      → IsCalm h w
      → Same (server_view h) w (get_product ids (db_server h) text w).1
  unfolding get_product Repository.get_product_by_id Queries.get_product_by_id
  get_product-Same w text c = subst (Same (server_view h) w) (sym read) (Same-refl w c)
    where
      read : (get_product ids (db_server h) text w).1 ≡ w
      read = ground (arith, c.no_faults)

  pub get_deal-Same :
      (w : ProductWorld) (text : String)
      → IsCalm h w
      → Same (server_view h) w (get_deal ids (db_server h) text w).1
  unfolding get_deal Repository.get_deal_by_id Deals.get_deal_by_id
  get_deal-Same w text c = subst (Same (server_view h) w) (sym read) (Same-refl w c)
    where
      read : (get_deal ids (db_server h) text w).1 ≡ w
      read = ground (arith, c.no_faults)

  pub bounded : (w : ProductWorld) (id : Uuid) → IsCalm h w → InStock ((server_view h).stock w id)
  bounded w id c =
      go (redis_stock (active h) (stock_at id w.redis)) (find_product id w.db) refl refl
    where
      go :
          (o : Option ℤ) (q : Option ProductProduct)
          → redis_stock (active h) (stock_at id w.redis) ≡ o
          → find_product id w.db ≡ q
          → InStock (shown_stock o q)
      go (some n) q e f = (c.stocks id n e).0
      go none (some p) e f = c.products id p f
      go none none e f = (ground arith, ground arith)

  pub takes :
      (w : ProductWorld) (id : Uuid) (q : ℤ)
      → IsCalm h w
      → IsQuantity q
      → Takes (server_view h) id q w (update_stock ids (db_server h) (ids.format id) (neg32 q) w)
  takes w id q c (low, high) =
      go (update_stock ids (db_server h) (ids.format id) (neg32 q) w)
        (update_stock-Stocks ids h id (neg32 q) w c change)
    where
      negated : neg32 q ≡ pos 0 -ℤ q
      negated = neg32_exact q (grind (int_laws, low))

      change : IsChange h id (neg32 q) w
      change =
          let b = bounded w id c in
          (
            rw negated (grind (int_laws, low, high)),
            rw negated (grind (int_laws, low, high)),
            rw negated (grind (int_laws, low, high, b.1)),
          )

      go :
          (p : Result Status ProductMessage × ProductWorld)
          → Stocks h id (neg32 q) w p
          → Takes (server_view h) id q w p
      go (ok m, w') (shift, k) = (subst (λ d. Shift (server_view h) id d w w') negated shift, k)
      go (err st, w') (same, _) = subst (Same (server_view h) w) (sym same) (Same-refl w c)

  pub gives :
      (w : ProductWorld) (id : Uuid) (q : ℤ)
      → IsCalm h w
      → IsKnown id w
      → IsQuantity q
      → (server_view h).stock w id +ℤ q ≤ℤ max_int32
      → Gives (server_view h) id q w (update_stock ids (db_server h) (ids.format id) q w)
  gives w id q c (p, known) (low, high) room =
      go (update_stock ids (db_server h) (ids.format id) q w)
        (update_stock-Stocks ids h id q w c (grind (int_laws, low), high, room))
    where
      go :
          (r : Result Status ProductMessage × ProductWorld)
          → Stocks h id q w r
          → Gives (server_view h) id q w r
      go (ok m, w') (shift, _) = shift
      go (err st, w') (same, inl unknown) = ground (arith, unknown, known)
      go (err st, w') (same, inr short) = grind (int_laws, short, low, (bounded w id c).0)

  -- The server over PostgreSQL and Redis keeps every promise that the order service relies on.
  unfoldable pub server_laws : StockLaws ids (product_service ids (db_server h))
  server_laws = record {
    view = server_view h;
    bounded = bounded;
    get_product_Same = get_product-Same;
    get_deal_Same = get_deal-Same;
    takes = takes;
    gives = gives;
  }
