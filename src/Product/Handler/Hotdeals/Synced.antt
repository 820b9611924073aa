-- ===== src/Product/Handler/Hotdeals/Synced.antt =====
-- The steps of starting and ending a hot deal, with the cache and without.
use mathlib.Core.Path.{subst}
use flash_deals.Base.{
  ℤ, pos, ltb_ℤ, wrap32, int_laws, String, Bool, true, false, List, Result, err, ◌≡◌, refl, sym, ap,
  ◌∙◌, none, some, [], Uuid, UuidText, ok, inl, inr, arith, Bool-cases, ◌==◌, if◌then◌else◌,
}
use flash_deals.Http.{Response, refuse, status_internal_server_error}
use flash_deals.Product.State.{ProductProduct, ProductWorld, Error}
use flash_deals.Product.Queries.{find_product, UpdateStockRow}
use flash_deals.Product.Repository.Locking.{with_stock, with_stock-find_product}
use flash_deals.Product.Repository
use flash_deals.Product.Repository.Cached
use flash_deals.Product.Repository.Cached.Coherence.{
  read_table, uncached, CacheIsRight, Agrees, get_product_by_id-Agrees,
}
use flash_deals.Product.Repository.Cached.Updates.{update_stock-Agrees}
use flash_deals.Product.Handler.Over.{handler_over}
use flash_deals.Product.Hotdeal.{HotdealRepository, is_enabled, remove_key, set_key, stock_at}
use flash_deals.Product.Hotdeal.Script.{find-remove_key}
use flash_deals.Product.Hotdeal.Deal.{load_stock_lem, unload_stock_lem}
use flash_deals.Product.Handler.Stock.Serial.{db_handler, write_some}
use flash_deals.Product.Handler.Hotdeals.{
  HotdealResponse, load_hotdeal, start_hotdeal, sync_stock, unload_hotdeal, end_hotdeal,
  hotdeal_ended,
}

abbrev pub without_key : Uuid → ProductWorld → ProductWorld
without_key id w = record w { redis = record w.redis { stocks = remove_key id w.redis.stocks } }

-- What the end of a hot deal of `n` pieces leaves.
abbrev pub Ended :
    UuidText
    → Uuid
    → ProductWorld
    → ProductProduct
    → ℤ
    → Response String HotdealResponse × ProductWorld
    → Type 0
Ended ids id w p n q =
    (q.0 ≡ hotdeal_ended ids id n)
    × ((j : Uuid) → stock_at j q.1.redis ≡ (if j == id then none else stock_at j w.redis))
    × (find_product id q.1.db
        ≡ some (if ltb_ℤ (pos 0) n then record p { stock = n; updated_at = w.db.clock } else p))

-- The same answer and the same state but for the cache, whose products are those of the table.
pub record Alike (cached : Bool) (p q : Response String HotdealResponse × ProductWorld)
    : Type 0 where
  pub answer : p.0 ≡ q.0
  pub state : uncached p.1 ≡ uncached q.1
  pub right : CacheIsRight cached p.1

-- With the cache there, its products are right as well.
abbrev pub EndedOver :
    UuidText
    → Bool
    → Uuid
    → ProductWorld
    → ProductProduct
    → ℤ
    → Response String HotdealResponse × ProductWorld
    → Type 0
EndedOver ids cached id w p n q = Ended ids id w p n q × CacheIsRight cached q.1

pub Alike-Ended :
    (ids : UuidText) (cached : Bool) (id : Uuid) (w : ProductWorld) (p : ProductProduct) (n : ℤ)
    (q q' : Response String HotdealResponse × ProductWorld)
    → Alike cached q q'
    → Ended ids id w p n q'
    → EndedOver ids cached id w p n q
Alike-Ended ids cached id w p n q q' a (answer, keys, row) = (
  (
    a.answer ∙ answer,
    λ j. ap (λ (u : ProductWorld). stock_at j u.redis) a.state ∙ keys j,
    ap (λ (u : ProductWorld). find_product id u.db) a.state ∙ row,
  ),
  a.right,
)

-- Other keys of stocks do not touch the cache.
pub kept_right :
    (cached : Bool) (w : ProductWorld) (kvs : List (Uuid × ℤ))
    → CacheIsRight cached w
    → CacheIsRight cached (record w { redis = record w.redis { stocks = kvs } })
kept_right true w kvs c = c
kept_right false w kvs c = tt

module _ (ids : UuidText) (hot : HotdealRepository) (on : is_enabled hot ≡ true) (id_str : String)
    (id : Uuid) (parsed : ids.parse id_str ≡ ok id) where
  -- `StartHotdeal` has loaded the stock of the table.
  pub start_hotdeal_lem :
      (cached : Bool) (w : ProductWorld) (p : ProductProduct)
      → w.script ≡ []
      → CacheIsRight cached w
      → find_product id w.db ≡ some p
      → (w1 : ProductWorld) × (uncached w1 ≡ uncached w)
        × CacheIsRight cached w1
        × ((start_hotdeal ids (handler_over cached (some hot)) id_str w).1
            ≡ record w1 { redis = set_key id p.stock w1.redis })
  unfolding start_hotdeal load_hotdeal
  start_hotdeal_lem false w p calm c found = (
    w,
    refl,
    tt,
    ground (arith, parsed, read_table id w calm, found, load_stock_lem hot id w p.stock on calm),
  )
  start_hotdeal_lem true w p calm c found =
      let a = get_product_by_id-Agrees id w calm c in
      let w1 = (Cached.get_product_by_id id w).1 in
      let same : uncached w1 ≡ uncached w =
        a.state
        ∙ ap (λ (q : Result Error ProductProduct × ProductWorld). uncached q.1)
            (read_table id w calm) in
      let quiet : w1.script ≡ [] = ap (λ (u : ProductWorld). u.script) same ∙ calm in
      let read : (Cached.get_product_by_id id w).0 ≡ ok p =
        ground (arith, a.answer, read_table id w calm, found) in
      (
        w1,
        same,
        a.coherent,
        ground (arith, parsed, read, load_stock_lem hot id w1 p.stock on quiet),
      )

  pub ended :
      (cached : Bool) (w : ProductWorld) (n : ℤ)
      → w.script ≡ []
      → stock_at id w.redis ≡ some n
      → end_hotdeal ids (handler_over cached (some hot)) id_str w
        ≡ sync_stock ids (handler_over cached (some hot)) id (wrap32 n) (without_key id w)
  unfolding end_hotdeal unload_hotdeal
  ended cached w n calm key = ground (arith, parsed, on, unload_stock_lem hot id w n on calm key)

  sync_some :
      (w : ProductWorld) (p : ProductProduct) (n : ℤ)
      → w.script ≡ []
      → find_product id w.db ≡ some p
      → ltb_ℤ (pos 0) n ≡ true
      → sync_stock ids (db_handler (some hot)) id n w
        ≡ (hotdeal_ended ids id n, record w { db = with_stock id n w.db })
  unfolding sync_stock
  sync_some w p n calm found more =
      ground (arith, more, write_some ids (some hot) id w calm p found n (grind (int_laws, more)))

  sync_none :
      (w : ProductWorld) (n : ℤ)
      → ltb_ℤ (pos 0) n ≡ false
      → sync_stock ids (db_handler (some hot)) id n w ≡ (hotdeal_ended ids id n, w)
  unfolding sync_stock
  sync_none w n less = ground (arith, less)

  pub sync_stock-Ended :
      (w : ProductWorld) (p : ProductProduct) (n : ℤ)
      → w.script ≡ []
      → find_product id w.db ≡ some p
      → Ended ids id w p n (sync_stock ids (db_handler (some hot)) id n (without_key id w))
  sync_stock-Ended w p n calm found = elim (Bool-cases (ltb_ℤ (pos 0) n)) [
    | inl more ↦
        subst (Ended ids id w p n) (sym (sync_some (without_key id w) p n calm found more)) (
          refl,
          λ j. find_key j,
          with_stock-find_product id n w.db p found ∙ ap some (ground (arith, more)),
        )
    | inr less ↦
        subst (Ended ids id w p n) (sym (sync_none (without_key id w) n less))
          (refl, λ j. find_key j, found ∙ ap some (ground (arith, less)))
  ]
    where
      find_key :
          (j : Uuid)
          → stock_at j (without_key id w).redis ≡ (if j == id then none else stock_at j w.redis)
      find_key j = ground (arith, find-remove_key j id w.redis.stocks)

  -- The cache does not show in what `sync_stock` answers and does.
  pub sync_stock-Alike :
      (cached : Bool) (w : ProductWorld) (n : ℤ)
      → w.script ≡ []
      → CacheIsRight cached w
      → Alike cached
          (sync_stock ids (handler_over cached (some hot)) id n w)
          (sync_stock ids (db_handler (some hot)) id n w)
  unfolding sync_stock
  sync_stock-Alike false w n calm c = record { answer = refl; state = refl; right = tt }
  sync_stock-Alike true w n calm c = go (ltb_ℤ (pos 0) n)
    where
      told : Result Error UpdateStockRow → Response String HotdealResponse
      told r = elim r [
        | err e ↦ refuse status_internal_server_error "Failed to sync stock to DB"
        | ok _ ↦ hotdeal_ended ids id n
      ]

      synced :
          Result Error UpdateStockRow × ProductWorld
          → Response String HotdealResponse × ProductWorld
      synced p = elim p.0 [
        | err e ↦ (refuse status_internal_server_error "Failed to sync stock to DB", p.1)
        | ok _ ↦ (hotdeal_ended ids id n, p.1)
      ]

      synced_lem : (p : Result Error UpdateStockRow × ProductWorld) → synced p ≡ (told p.0, p.1)
      synced_lem (ok r, u) = refl
      synced_lem (err e, u) = refl

      a : Agrees (Cached.update_stock id n w) (Repository.update_stock id n w)
      a = update_stock-Agrees w calm c id n

      go :
          (b : Bool)
          → Alike true
              (if b then synced (Cached.update_stock id n w) else (hotdeal_ended ids id n, w))
              (if b then synced (Repository.update_stock id n w) else (hotdeal_ended ids id n, w))
      go false = record { answer = refl; state = refl; right = c }
      go true =
          subst (λ p. Alike true p (synced (Repository.update_stock id n w)))
            (sym (synced_lem (Cached.update_stock id n w)))
            (subst
              (λ q.
                Alike true (told (Cached.update_stock id n w).0, (Cached.update_stock id n w).1) q)
              (sym (synced_lem (Repository.update_stock id n w)))
              (record { answer = ap told a.answer; state = a.state; right = a.coherent }))
