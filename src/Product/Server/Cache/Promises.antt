-- ===== src/Product/Server/Cache/Promises.antt =====
-- The gRPC server over either repository keeps the promises that the order service relies on.
use mathlib.Core.Path.{subst}
use Prim.Native.String.{◌++◌ as append}
use flash_deals.Base.{
  ℤ, neg32, Bool, true, false, ◌≡◌, refl, sym, ap, ◌∙◌, Option, [], String, Uuid, UuidText, Result,
  ok, err, arith,
}
use flash_deals.Rpc.{not_found, invalid_argument, Status, ProductMessage}
use flash_deals.Rpc.Stock.{StockView, Shift, Same, Takes, Gives, StockLaws}
use flash_deals.Product.State.{ProductWorld}
use flash_deals.Product.Hotdeal.{HotdealRepository}
use flash_deals.Product.Queries.Deals
use flash_deals.Product.Repository
use flash_deals.Product.Repository.Cached.Coherence.{
  IsCoherent, CacheIsRight, Agrees, uncached, get_product_by_id-Agrees,
}
use flash_deals.Product.Server.{
  ProductServer, get_product, get_deal, update_stock, product_message, product_service, fail_with,
  status,
}
use flash_deals.Product.Server.View.{db_server, IsCalm, IsKnown, server_view}
use flash_deals.Product.Server.Promises.{get_product-Same, bounded, takes, gives}
use flash_deals.Product.Server.Cache.{update_stock-Agrees}
use flash_deals.Product.Server.Cache.NewStock.{cached_server}

-- The server over the repository with the cache, or over the one without.
abbrev pub server_over : Bool → Option HotdealRepository → ProductServer
server_over true h = cached_server h
server_over false h = db_server h

-- The stock that is shown does not depend on the cache.
abbrev pub view_over : Bool → Option HotdealRepository → StockView ProductWorld
view_over cached h = record {
  Valid = λ w. IsCalm h w × CacheIsRight cached w;
  Known = (server_view h).Known;
  stock = (server_view h).stock;
}

-- The same answer and the same state but for the cache, which is right.
pub record Alike (cached : Bool) {E A : Type 0} (p q : Result E A × ProductWorld) : Type 0 where
  pub answer : p.0 ≡ q.0
  pub state : uncached p.1 ≡ uncached q.1
  pub right : CacheIsRight cached p.1

module _ (cached : Bool) (h : Option HotdealRepository) where
  -- What is said of a world holds for one that differs from it in the cache.
  IsCalm-uncached : (w u : ProductWorld) → uncached w ≡ uncached u → IsCalm h u → IsCalm h w
  IsCalm-uncached w u e c =
      let c' : IsCalm h (uncached w) = subst (IsCalm h) (sym e) (record {
        no_faults = c.no_faults;
        no_cancels = c.no_cancels;
        products = c.products;
        stocks = c.stocks;
      }) in
      record {
        no_faults = c'.no_faults;
        no_cancels = c'.no_cancels;
        products = c'.products;
        stocks = c'.stocks;
      }

  pub IsKnown-uncached :
      (w u : ProductWorld) (j : Uuid) → uncached w ≡ uncached u → IsKnown j u → IsKnown j w
  IsKnown-uncached w u j e k = subst (λ x. IsKnown j x) (sym e) k

  same_stock :
      (w u : ProductWorld) (j : Uuid)
      → uncached w ≡ uncached u
      → (server_view h).stock w j ≡ (server_view h).stock u j
  same_stock w u j e = ap (λ x. (server_view h).stock x j) e

  pub Shift-over :
      (id : Uuid) (delta : ℤ) (r w u : ProductWorld)
      → uncached w ≡ uncached u
      → CacheIsRight cached w
      → Shift (server_view h) id delta r u
      → Shift (view_over cached h) id delta r w
  Shift-over id delta r w u e c s = record {
    valid = (IsCalm-uncached w u e s.valid, c);
    known = λ j k. IsKnown-uncached w u j e (s.known j k);
    at = λ j. same_stock w u j e ∙ s.at j;
  }

  Same-over :
      (r w u : ProductWorld)
      → uncached w ≡ uncached u
      → CacheIsRight cached w
      → Same (server_view h) r u
      → Same (view_over cached h) r w
  Same-over r w u e c s = record {
    valid = (IsCalm-uncached w u e s.valid, c);
    known = λ j k. IsKnown-uncached w u j e (s.known j k);
    at = λ j. same_stock w u j e ∙ s.at j;
  }

  pub Takes-over :
      {E A : Type 0} (id : Uuid) (n : ℤ) (r : ProductWorld) (p q : Result E A × ProductWorld)
      → Alike cached p q
      → Takes (server_view h) id n r q
      → Takes (view_over cached h) id n r p
  Takes-over {E} {A} id n r (a, w) (b, u) s t =
      subst (λ o. Takes {E = E} {A = A} (view_over cached h) id n r (o, w)) (sym s.answer) (go b t)
    where
      go :
          (o : Result E A)
          → Takes {E = E} {A = A} (server_view h) id n r (o, u)
          → Takes {E = E} {A = A} (view_over cached h) id n r (o, w)
      go (ok x) (shift, k) =
          (Shift-over id _ r w u s.state s.right shift, IsKnown-uncached w u id s.state k)
      go (err x) same = Same-over r w u s.state s.right same

  pub Gives-over :
      {E A : Type 0} (id : Uuid) (n : ℤ) (r : ProductWorld) (p q : Result E A × ProductWorld)
      → Alike cached p q
      → Gives (server_view h) id n r q
      → Gives (view_over cached h) id n r p
  Gives-over {E} {A} id n r (a, w) (b, u) s t =
      subst (λ o. Gives {E = E} {A = A} (view_over cached h) id n r (o, w)) (sym s.answer) (go b t)
    where
      go :
          (o : Result E A)
          → Gives {E = E} {A = A} (server_view h) id n r (o, u)
          → Gives {E = E} {A = A} (view_over cached h) id n r (o, w)
      go (ok x) shift = Shift-over id n r w u s.state s.right shift
      go (err x) never = absurd never

module _ (ids : UuidText) (h : Option HotdealRepository) where
  get_product-Agrees :
      (text : String) (w : ProductWorld)
      → w.script ≡ []
      → IsCoherent w
      → Agrees (get_product ids (cached_server h) text w) (get_product ids (db_server h) text w)
  unfolding get_product
  get_product-Agrees text w calm c = parsed (ids.parse text)
    where
      found : ProductServer → Result String Uuid → Result Status ProductMessage × ProductWorld
      found s (err e) = (err (status invalid_argument (append "invalid product ID: " e)), w)
      found s (ok id) =
          let (r, w') = s.repo.get_product_by_id id w in
          (fail_with not_found "product not found: " r (λ p. product_message ids p p.stock), w')

      parsed :
          (r : Result String Uuid)
          → Agrees {E = Status} {A = ProductMessage}
              (found (cached_server h) r)
              (found (db_server h) r)
      parsed (err e) = record { answer = refl; state = refl; coherent = c }
      parsed (ok id) =
          let a = get_product_by_id-Agrees id w calm c in
          record {
            answer =
                ap
                  (λ r.
                    fail_with {B = ProductMessage} not_found "product not found: " r
                      (λ p. product_message ids p p.stock))
                  a.answer;
            state = a.state;
            coherent = a.coherent;
          }

  pub update_stock-Alike :
      (cached : Bool) (text : String) (delta : ℤ) (w : ProductWorld)
      → IsCalm h w
      → CacheIsRight cached w
      → Alike cached
          (update_stock ids (server_over cached h) text delta w)
          (update_stock ids (db_server h) text delta w)
  update_stock-Alike false text delta w c r = record { answer = refl; state = refl; right = tt }
  update_stock-Alike true text delta w c r =
      let a = update_stock-Agrees ids h text delta w c.no_faults c.no_cancels r in
      record { answer = a.answer; state = a.state; right = a.coherent }

  pub get_product-over :
      (cached : Bool) (w : ProductWorld) (text : String)
      → IsCalm h w × CacheIsRight cached w
      → Same (view_over cached h) w (get_product ids (server_over cached h) text w).1
  get_product-over false w text (c, r) =
      Same-over false h w _ _ refl tt (get_product-Same ids h w text c)
  get_product-over true w text (c, r) =
      let a = get_product-Agrees text w c.no_faults r in
      Same-over true h w _ _ a.state a.coherent (get_product-Same ids h w text c)

  get_deal_calm :
      (cached : Bool) (w : ProductWorld) (text : String)
      → w.script ≡ []
      → (get_deal ids (server_over cached h) text w).1 ≡ w
  unfolding get_deal Repository.get_deal_by_id Deals.get_deal_by_id
  get_deal_calm false w text calm = ground (arith, calm)
  get_deal_calm true w text calm = ground (arith, calm)

  pub get_deal-over :
      (cached : Bool) (w : ProductWorld) (text : String)
      → IsCalm h w × CacheIsRight cached w
      → Same (view_over cached h) w (get_deal ids (server_over cached h) text w).1
  get_deal-over cached w text v =
      subst (Same (view_over cached h) w) (sym (get_deal_calm cached w text v.0.no_faults))
        (record { valid = v; known = λ j k. k; at = λ j. refl })

  -- The server keeps every promise that the order service relies on, with the cache and without.
  unfoldable pub laws_over :
      (cached : Bool) → StockLaws ids (product_service ids (server_over cached h))
  laws_over cached = record {
    view = view_over cached h;
    bounded = λ w id v. bounded ids h w id v.0;
    get_product_Same = get_product-over cached;
    get_deal_Same = get_deal-over cached;
    takes = λ w id q v b.
        Takes-over cached h id q w _ _
          (update_stock-Alike cached (ids.format id) (neg32 q) w v.0 v.1)
          (takes ids h w id q v.0 b);
    gives = λ w id q v k b room.
        Gives-over cached h id q w _ _ (update_stock-Alike cached (ids.format id) q w v.0 v.1)
          (gives ids h w id q v.0 k b room);
  }
