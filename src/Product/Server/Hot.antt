-- ===== src/Product/Server/Hot.antt =====
-- The update of a stock in Redis, for a product with a hot deal.
use mathlib.Core.Path.{subst}
use flash_deals.Base.{
  ◌==◌, ℤ, pos, ◌+ℤ◌, ◌-ℤ◌, ◌≤ℤ◌, max_int32, wrap32, neg32, neg32_exact, ltb_ℤ, int_laws, Bool,
  true, false, ◌≡◌, refl, sym, some, Uuid, inl, inr, ok, err, arith, Bool-cases, ==→eq,
}
use flash_deals.Rpc.{failed_precondition}
use flash_deals.Rpc.Stock.{Shift}
use flash_deals.Product.State.{ProductWorld, error_text}
use flash_deals.Product.Hotdeal.{HotdealRepository, stock_at, set_key, is_enabled}
use flash_deals.Product.Hotdeal.Script.{
  stock_at-set_key, decrement_stock_low, decrement_stock_enough, increment_stock_lem,
}
use flash_deals.Product.Server.{update_hotdeal_stock}
use flash_deals.Product.Server.View.{
  IsCalm, IsKnown, server_view, Stocks, IsChange, InStock, redis_stock,
}

module _ (h : HotdealRepository) (id : Uuid) (delta n : ℤ) (w : ProductWorld)
    (c : IsCalm (some h) w) (on : is_enabled h ≡ true) (key : stock_at id w.redis ≡ some n) where
  in_redis : redis_stock (is_enabled h) (stock_at id w.redis) ≡ some n
  in_redis = ground (arith, on, key)

  shown : (server_view (some h)).stock w id ≡ n
  shown = ground (arith, in_redis)

  -- The keys and the view after a write of the stock.
  set_key-Shift :
      InStock (n +ℤ delta)
      → Shift
          (server_view (some h))
          id
          delta
          w
          (record w { redis = set_key id (n +ℤ delta) w.redis })
  set_key-Shift b = record {
    valid = record {
      no_faults = c.no_faults;
      no_cancels = c.no_cancels;
      products = c.products;
      stocks = λ j m k. (in_stock j m k, known j m k);
    };
    known = λ j k. k;
    at = λ j. ground (arith, on, key, stock_at-set_key j id (n +ℤ delta) w.redis);
  }
    where
      in_stock :
          (j : Uuid) (m : ℤ)
          → redis_stock (is_enabled h) (stock_at j (set_key id (n +ℤ delta) w.redis)) ≡ some m
          → InStock m
      in_stock j m k =
          ground (arith, on, stock_at-set_key j id (n +ℤ delta) w.redis, (c.stocks j m), b)

      known :
          (j : Uuid) (m : ℤ)
          → redis_stock (is_enabled h) (stock_at j (set_key id (n +ℤ delta) w.redis)) ≡ some m
          → IsKnown j w
      known j m k = elim (Bool-cases (j == id)) [
        | inl same ↦ subst (λ i. IsKnown i w) (sym (==→eq j id same)) (c.stocks id n in_redis).1
        | inr other ↦
            (c.stocks j m
              (ground (arith, on, other, k, stock_at-set_key j id (n +ℤ delta) w.redis))).1
      ]

  taken_low :
      ltb_ℤ delta (pos 0) ≡ true
      → ltb_ℤ n (neg32 delta) ≡ true
      → update_hotdeal_stock h id delta w
        ≡ (err (record { code = failed_precondition; text = "insufficient stock" }), w)
  unfolding update_hotdeal_stock error_text
  taken_low taking low =
      ground (arith, taking, low, decrement_stock_low h id (neg32 delta) n w on c.no_faults key low)

  taken_enough :
      ltb_ℤ delta (pos 0) ≡ true
      → ltb_ℤ n (neg32 delta) ≡ false
      → update_hotdeal_stock h id delta w ≡ (
        ok (wrap32 (n -ℤ neg32 delta)),
        record w { redis = set_key id (n -ℤ neg32 delta) w.redis },
      )
  unfolding update_hotdeal_stock
  taken_enough taking room =
      ground
        (arith, taking, room, decrement_stock_enough h id (neg32 delta) n w on c.no_faults key room)

  given :
      ltb_ℤ delta (pos 0) ≡ false
      → update_hotdeal_stock h id delta w
        ≡ (ok (wrap32 (n +ℤ delta)), record w { redis = set_key id (n +ℤ delta) w.redis })
  unfolding update_hotdeal_stock
  given giving = ground (arith, giving, increment_stock_lem h id delta n w on c.no_faults key)

  module _ (b : IsChange (some h) id delta w) where
    negated : neg32 delta ≡ pos 0 -ℤ delta
    negated = neg32_exact delta (grind (int_laws, b.0, b.1))

    now : n -ℤ neg32 delta ≡ n +ℤ delta
    now = rw negated (omega int_laws)

    small : n +ℤ delta ≤ℤ max_int32
    small = rw shown at b.2

    -- Below zero the script refuses, and else the number in Redis changes by the delta.
    pub update_hotdeal_stock-Stocks : Stocks (some h) id delta w (update_hotdeal_stock h id delta w)
    update_hotdeal_stock-Stocks = go (ltb_ℤ delta (pos 0)) (ltb_ℤ n (neg32 delta)) refl refl
      where
        done_at :
            (m : ℤ)
            → m ≡ n +ℤ delta
            → pos 0 ≤ℤ n +ℤ delta
            → Stocks (some h) id delta w (ok (wrap32 m), record w { redis = set_key id m w.redis })
        done_at m e low =
            subst
              (λ k.
                Stocks (some h) id delta w
                  (ok (wrap32 k), record w { redis = set_key id k w.redis }))
              (sym e) (set_key-Shift (low, small), (c.stocks id n in_redis).1)

        go :
            (t u : Bool)
            → ltb_ℤ delta (pos 0) ≡ t
            → ltb_ℤ n (neg32 delta) ≡ u
            → Stocks (some h) id delta w (update_hotdeal_stock h id delta w)
        go false u giving _ =
            subst (Stocks (some h) id delta w) (sym (given giving))
              (done_at (n +ℤ delta) refl (grind (int_laws, giving, (c.stocks id n in_redis).0)))
        go true true taking low =
            subst (Stocks (some h) id delta w) (sym (taken_low taking low))
              (refl, inr (rw shown (grind (int_laws, low, negated))))
        go true false taking room =
            subst (Stocks (some h) id delta w) (sym (taken_enough taking room))
              (done_at (n -ℤ neg32 delta) now (grind (int_laws, room, negated)))
