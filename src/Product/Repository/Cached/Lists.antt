-- ===== src/Product/Repository/Cached/Lists.antt =====
-- The cached lists: an update of a product drops them all, an update of a stock drops none.
use flash_deals.Base.{
  ℤ, Bool, true, false, ◌||◌, ◌≡◌, refl, ap, ◌∙◌, List, [], ◌∷◌, Result, ok, map, arith, Bool-cases,
  inl, inr, ◌+◌, AllOf, ==_self, pos_part, neg_part,
}
use flash_deals.Product.State.{ProductProduct, ProductWorld, Stored, on_redis}
use flash_deals.Product.Repository.Cached.{
  same_page, list_key, drop_list, del_list_key, delete_lists, invalidate_product_list,
}

abbrev Lists : Type 0
Lists = List ((ℤ × ℤ) × Stored (List ProductProduct))

abbrev drop_all : List (ℤ × ℤ) → Lists → Lists
drop_all [] kvs = kvs
drop_all (k ∷ ks) kvs = drop_all ks (drop_list k kvs)

-- The world with other cached lists.
abbrev pub with_lists : Lists → ProductWorld → ProductWorld
with_lists l w = record w { redis = record w.redis { cached_lists = l } }

del_list_lem :
    (k : ℤ × ℤ) (w : ProductWorld)
    → w.script ≡ []
    → on_redis (del_list_key k) w ≡ (ok tt, with_lists (drop_list k w.redis.cached_lists) w)
del_list_lem k w calm = ground (arith, calm)

delete_lists_lem :
    (ks : List (ℤ × ℤ)) (w : ProductWorld)
    → w.script ≡ []
    → delete_lists ks w ≡ (ok tt, with_lists (drop_all ks w.redis.cached_lists) w)
unfolding delete_lists
delete_lists_lem [] w calm = refl
delete_lists_lem (k ∷ ks) w calm =
    ap (λ (p : Result _ _ × ProductWorld). delete_lists ks p.1) (del_list_lem k w calm)
    ∙ delete_lists_lem ks (with_lists (drop_list k w.redis.cached_lists) w) calm

-- Is the key one of these?
abbrev listed : ℤ × ℤ → List (ℤ × ℤ) → Bool
listed j [] = false
listed j (k ∷ ks) = same_page j k || listed j ks

abbrev Covered : List (ℤ × ℤ) → Lists → Type 0
Covered ks kvs = AllOf (λ kv. listed (list_key kv) ks ≡ true) kvs

same_page_self : (k : ℤ × ℤ) → same_page k k ≡ true
same_page_self (l, o) =
    ground (arith, ==_self (pos_part l + neg_part l), ==_self (pos_part o + neg_part o))

Covered-drop_list :
    (k : ℤ × ℤ) (ks : List (ℤ × ℤ)) (kvs : Lists)
    → Covered (k ∷ ks) kvs
    → Covered ks (drop_list k kvs)
Covered-drop_list k ks [] h = tt
Covered-drop_list k ks ((j, v) ∷ kvs) (h, hs) = elim (Bool-cases (same_page j k)) [
  | inl e ↦ rw e (Covered-drop_list k ks kvs hs)
  | inr e ↦ rw e (rw e at h, Covered-drop_list k ks kvs hs)
]

drop_all-Covered : (ks : List (ℤ × ℤ)) (kvs : Lists) → Covered ks kvs → drop_all ks kvs ≡ []
drop_all-Covered [] [] h = refl
drop_all-Covered [] (kv ∷ kvs) (h, hs) = absurd (ground (arith, h))
drop_all-Covered (k ∷ ks) kvs h =
    drop_all-Covered ks (drop_list k kvs) (Covered-drop_list k ks kvs h)

Covered-more : (k : ℤ × ℤ) (ks : List (ℤ × ℤ)) (kvs : Lists) → Covered ks kvs → Covered (k ∷ ks) kvs
Covered-more k ks [] h = tt
Covered-more k ks (kv ∷ kvs) (h, hs) = (ground (arith, h), Covered-more k ks kvs hs)

Covered-self : (kvs : Lists) → Covered (map list_key kvs) kvs
Covered-self [] = tt
Covered-self ((k, v) ∷ kvs) =
    (ground (arith, same_page_self k), Covered-more k (map list_key kvs) kvs (Covered-self kvs))

-- With no failing call, `InvalidateProductList` drops every cached list, and nothing else.
pub invalidate_product_list_lem :
    (w : ProductWorld) → w.script ≡ [] → invalidate_product_list w ≡ (ok tt, with_lists [] w)
unfolding invalidate_product_list
invalidate_product_list_lem w calm =
    scanned
    ∙ delete_lists_lem (map list_key w.redis.cached_lists) w calm
    ∙ ap (λ l. (ok tt, with_lists l w))
        (drop_all-Covered (map list_key w.redis.cached_lists) w.redis.cached_lists
          (Covered-self w.redis.cached_lists))
  where
    scanned : invalidate_product_list w ≡ delete_lists (map list_key w.redis.cached_lists) w
    scanned = ground (arith, calm)
