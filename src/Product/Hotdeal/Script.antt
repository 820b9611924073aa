-- ===== src/Product/Hotdeal/Script.antt =====
-- The keys of the hot deals as a map, and the Lua script.
use flash_deals.Base.{
  ◌==◌, ℤ, ◌-ℤ◌, ltb_ℤ, if◌then◌else◌, ◌≡◌, none, some, List, [], ◌∷◌, Uuid, ok, err, arith, true,
  false, wrap32, ◌+ℤ◌, int_laws, find_by,
}
use flash_deals.Product.State.{Redis, ProductWorld, message}
use flash_deals.Product.Hotdeal.{
  stock_at, set_key, remove_key, key_of, HotdealRepository, is_enabled, decrement_stock,
  increment_stock, has_stock, script_result,
}

pub find-remove_key :
    (j id : Uuid) (kvs : List (Uuid × ℤ))
    → find_by key_of j (remove_key id kvs) ≡ (if j == id then none else find_by key_of j kvs)
find-remove_key j id [] = ground arith
find-remove_key j id ((k, n) ∷ kvs) = ground (arith, find-remove_key j id kvs)

-- A key holds what was set last.
pub stock_at-set_key :
    (j id : Uuid) (n : ℤ) (r : Redis)
    → stock_at j (set_key id n r) ≡ (if j == id then some n else stock_at j r)
stock_at-set_key j id n r = ground (arith, find-remove_key j id r.stocks)

-- The script takes exactly the quantity, and never more than there is: its answer is the new stock,
-- or one of two negative numbers, which no stock is.
pub script_result-exact :
    (n q : ℤ) → ltb_ℤ n q ≡ false → script_result (n -ℤ q) ≡ ok (wrap32 (n -ℤ q))
script_result-exact n q h = grind (int_laws, h)

module _ (h : HotdealRepository) (id : Uuid) (q n : ℤ) (w : ProductWorld) where
  -- `DecrementStock` with too little stock, and with enough, when no call fails.
  pub decrement_stock_low :
      is_enabled h ≡ true
      → w.script ≡ []
      → stock_at id w.redis ≡ some n
      → ltb_ℤ n q ≡ true
      → decrement_stock h id q w ≡ (err (message "insufficient stock"), w)
  unfolding decrement_stock is_enabled
  decrement_stock_low on calm key low = ground (arith, on, calm, key, low)

  pub decrement_stock_enough :
      is_enabled h ≡ true
      → w.script ≡ []
      → stock_at id w.redis ≡ some n
      → ltb_ℤ n q ≡ false
      → decrement_stock h id q w
        ≡ (ok (wrap32 (n -ℤ q)), record w { redis = set_key id (n -ℤ q) w.redis })
  unfolding decrement_stock is_enabled
  decrement_stock_enough on calm key room =
      ground (arith, on, calm, key, room, script_result-exact n q room)

  pub increment_stock_lem :
      is_enabled h ≡ true
      → w.script ≡ []
      → stock_at id w.redis ≡ some n
      → increment_stock h id q w
        ≡ (ok (wrap32 (n +ℤ q)), record w { redis = set_key id (n +ℤ q) w.redis })
  unfolding increment_stock is_enabled
  increment_stock_lem on calm key = ground (arith, on, calm, key)

-- `HasStock` with no failure to come.
pub has_stock_lem :
    (h : HotdealRepository) (id : Uuid) (w : ProductWorld)
    → w.script ≡ []
    → has_stock h id w ≡ (
      (if is_enabled h
          then (elim (stock_at id w.redis) [ none ↦ false | some _ ↦ true ])
          else false),
      w,
    )
unfolding has_stock is_enabled
has_stock_lem h id w calm = ground (arith, calm)
