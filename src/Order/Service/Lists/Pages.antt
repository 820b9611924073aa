-- ===== src/Order/Service/Lists/Pages.antt =====
-- The pages of `ListOrders`, one after the other.
use flash_deals.Base.{
  ℕ, suc, ◌+◌, ◌*◌, ◌≤◌, ℤ, pos, ◌-ℤ◌, ◌*ℤ◌, wrap32, wrap32_id, sub32, mul32, int_laws, ◌≡◌, refl,
  ap, ◌∙◌, none, List, [], ◌∷◌, ◌++◌, map, Uuid, Result, ok, err, arith, take, drop, filter_by,
  order_by_desc, take-append-drop,
}
use flash_deals.Order.State.{OrderWorld, OrderDb, OrdersOrder}
use flash_deals.Order.Queries.Lists.{is_of, created}
use flash_deals.Order.Service.{OrderResponse, Failure}
use flash_deals.Order.Service.Lists.{list_orders}
use flash_deals.Order.Service.Lists.Own.{shown, answered_page, asked, list_orders_lem}

minus_one : (k : ℕ) → pos (suc k) -ℤ pos 1 ≡ pos k
minus_one k = omega int_laws

times : (k s : ℕ) → pos k *ℤ pos s ≡ pos (k * s)
unfolding ◌*ℤ◌
times k s = ground arith

-- The offset of a page, in 32 bits, where it fits.
pub offset_exact :
    (k s : ℕ)
    → suc k ≤ 2147483647
    → k * s ≤ 2147483647
    → mul32 (sub32 (pos (suc k)) (pos 1)) (pos s) ≡ pos (k * s)
unfolding mul32 sub32
offset_exact k s small fits =
    ap (λ z. wrap32 (wrap32 z *ℤ pos s)) (minus_one k)
    ∙ ap (λ z. wrap32 (z *ℤ pos s)) (wrap32_id (pos k) (ground arith))
    ∙ ap wrap32 (times k s)
    ∙ wrap32_id (pos (k * s)) (ground (arith, fits))

abbrev pub orders_of : Result Failure (List OrderResponse × ℤ) → List OrderResponse
orders_of (ok (orders, total)) = orders
orders_of (err e) = []

map-append : {A B : Type 0} (f : A → B) (xs ys : List A) → map f xs ++ map f ys ≡ map f (xs ++ ys)
map-append f [] ys = refl
map-append f (x ∷ xs) ys = ap (λ l. f x ∷ l) (map-append f xs ys)

-- The orders of a user, newest first.
abbrev pub own : Uuid → OrderDb → List OrdersOrder
own user_id db = order_by_desc created (filter_by (is_of user_id) db.orders)

module _ {R : Type 0} (user_id : Uuid) (w : OrderWorld R) (calm : w.script ≡ []) where
  page_exact :
      (k s : ℕ)
      → suc k ≤ 2147483647
      → k * s ≤ 2147483647
      → orders_of (list_orders user_id (pos (suc k)) (pos s) none w).0
        ≡ map (shown w.db) (take s (drop (k * s) (own user_id w.db)))
  page_exact k s small fits =
      ap (λ (q : Result Failure (List OrderResponse × ℤ) × OrderWorld R). orders_of q.0)
        (list_orders_lem user_id (pos (suc k)) (pos s) none w calm)
      ∙ ap (λ o. orders_of (answered_page w.db (pos s) o (asked user_id none w.db.orders)))
          (offset_exact k s small fits)

  -- With no failing call, and as long as neither the page nor its offset is beyond 32 bits, two
  -- pages of the same size, one after the other, are one longer run of the user's orders, newest
  -- first.
  pub list_orders-pages :
      (k s : ℕ)
      → suc (suc k) ≤ 2147483647
      → suc k * s ≤ 2147483647
      → orders_of (list_orders user_id (pos (suc k)) (pos s) none w).0
          ++ orders_of (list_orders user_id (pos (suc (suc k))) (pos s) none w).0
        ≡ map (shown w.db) (take (s + s) (drop (k * s) (own user_id w.db)))
  list_orders-pages k s small fits =
      ap (λ l. l ++ orders_of (list_orders user_id (pos (suc (suc k))) (pos s) none w).0)
        (page_exact k s (ground (arith, small)) (ground (arith, fits)))
      ∙ ap (λ l. map (shown w.db) (take s (drop (k * s) (own user_id w.db))) ++ l)
          (page_exact (suc k) s small fits
            ∙ ap (λ n. map (shown w.db) (take s (drop n (own user_id w.db)))) (ground arith))
      ∙ map-append (shown w.db) (take s (drop (k * s) (own user_id w.db)))
          (take s (drop (k * s + s) (own user_id w.db)))
      ∙ ap (map (shown w.db)) (take-append-drop s s (k * s) (own user_id w.db))
