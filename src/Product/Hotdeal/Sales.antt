-- ===== src/Product/Hotdeal/Sales.antt =====
-- Any run of sales of one hot deal: the Lua script never sells more than there was.
use mathlib.Core.Path.{subst}
use flash_deals.Base.{
  ℤ, pos, ◌+ℤ◌, ◌-ℤ◌, ◌≤ℤ◌, ltb_ℤ, int_laws, true, ◌≡◌, sym, some, List, [], ◌∷◌, Uuid, Result, ok,
  err, arith, Bool-cases, inl, inr,
}
use flash_deals.Product.State.{ProductWorld, Error}
use flash_deals.Product.Hotdeal.{HotdealRepository, stock_at, set_key, is_enabled, decrement_stock}
use flash_deals.Product.Hotdeal.Script.{
  stock_at-set_key, decrement_stock_low, decrement_stock_enough,
}

-- The units that a result stands for.
abbrev pub sold : ℤ → Result Error ℤ → ℤ
sold q (ok _) = q
sold q (err _) = pos 0

-- One buyer after the other asks for a quantity; the units sold, and the state at the end.
unfoldable pub sell : HotdealRepository → Uuid → List ℤ → ProductWorld → ℤ × ProductWorld
sell h id [] w = (pos 0, w)
sell h id (q ∷ qs) w =
    let (r, w') = decrement_stock h id q w in let (n, w'') = sell h id qs w' in (sold q r +ℤ n, w'')

abbrev pub AllPositive : List ℤ → Type 0
AllPositive [] = Unit {0}
AllPositive (q ∷ qs) = (pos 1 ≤ℤ q) × AllPositive qs

-- What is left, and what was sold, add up to what there was.
abbrev pub Adds : Uuid → ℤ → ℤ × ProductWorld → Type 0
Adds id n (m, w') =
    (left : ℤ) × (stock_at id w'.redis ≡ some left) × (pos 0 ≤ℤ left) × (m +ℤ left ≡ n)

-- With hot deals enabled and no failure of Redis, buyers who each ask for one unit or more get in all
-- no more than the stock, and what is left in Redis is the stock less what they got.
pub sell-Adds :
    (h : HotdealRepository) (id : Uuid) (qs : List ℤ) (n : ℤ) (w : ProductWorld)
    → is_enabled h ≡ true
    → w.script ≡ []
    → stock_at id w.redis ≡ some n
    → pos 0 ≤ℤ n
    → AllPositive qs
    → Adds id n (sell h id qs w)
unfolding sell
sell-Adds h id [] n w on calm key low all = (n, key, low, omega int_laws)
sell-Adds h id (q ∷ qs) n w on calm key low (one, all) = elim (Bool-cases (ltb_ℤ n q)) [
  | inl short ↦
      subst
        (λ (p : Result Error ℤ × ProductWorld).
          Adds id n (sold q p.0 +ℤ (sell h id qs p.1).0, (sell h id qs p.1).1))
        (sym (decrement_stock_low h id q n w on calm key short))
        (let (left, key', low', sum) = sell-Adds h id qs n w on calm key low all in
          (left, key', low', grind (int_laws, sum)))
  | inr room ↦
      subst
        (λ (p : Result Error ℤ × ProductWorld).
          Adds id n (sold q p.0 +ℤ (sell h id qs p.1).0, (sell h id qs p.1).1))
        (sym (decrement_stock_enough h id q n w on calm key room))
        (let (left, key', low', sum) =
            sell-Adds h id qs (n -ℤ q) (record w { redis = set_key id (n -ℤ q) w.redis }) on calm
              (ground (arith, stock_at-set_key id id (n -ℤ q) w.redis)) (grind (int_laws, room))
              all in
          (left, key', low', grind (int_laws, sum)))
]
