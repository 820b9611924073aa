-- ===== src/Product/Server/Cache.antt =====
-- The gRPC server over the cached repository answers as the one over PostgreSQL alone.
pub mod NewStock
pub mod Promises
pub mod Stocks
use mathlib.Core.Path.{subst}
use Prim.Native.String.{◌++◌ as append}
use flash_deals.Base.{
  ℤ, Bool, true, false, String, ◌≡◌, refl, sym, ap, ◌∙◌, Option, none, some, [], Uuid, UuidText,
  Result, ok, err, arith, if◌then◌else◌,
}
use flash_deals.Rpc.{internal, invalid_argument, Status, ProductMessage}
use flash_deals.Product.State.{ProductProduct, ProductWorld, Error}
use flash_deals.Product.Queries.{UpdateStockRow, find_product, or_no_rows}
use flash_deals.Product.Repository
use flash_deals.Product.Repository.{db_repository}
use flash_deals.Product.Repository.Cached
use flash_deals.Product.Repository.Cached.{cached_repository, cached_at}
use flash_deals.Product.Repository.Cached.Coherence.{
  IsCoherent, Agrees, uncached, get_product_by_id-Agrees, read_table,
}
use flash_deals.Product.Repository.Cached.Updates.{update_stock_with_lock-Agrees}
use flash_deals.Product.Hotdeal.{
  HotdealRepository, stock_at, is_enabled, decrement_stock, increment_stock,
}
use flash_deals.Product.Hotdeal.Script.{has_stock_lem}
use flash_deals.Product.StockQueue.{queue_update_stock}
use flash_deals.Product.Server.{
  ProductServer, queued_reply, update_queued_stock, update_hotdeal_stock, new_stock, answer_stock,
  update_stock, product_message, fail_with, status,
}
use flash_deals.Product.Repository.Touches.{TouchesOne, update_stock_with_lock-TouchesOne}
use flash_deals.Product.Server.View.{db_server}
use flash_deals.Product.Server.Cache.NewStock.{cached_server, new_stock-Agrees, new_stock-calm}

-- Reading the product for the answer, after states that agree.
module _ (ids : UuidText) (h : Option HotdealRepository) (id : Uuid) (stock : ℤ) where
  answer_stock-Agrees :
      (w w' : ProductWorld)
      → w'.script ≡ []
      → uncached w ≡ uncached w'
      → IsCoherent w
      → Agrees
          (answer_stock ids (cached_server h) id stock w)
          (answer_stock ids (db_server h) id stock w')
  unfolding answer_stock
  answer_stock-Agrees w w' calm same c = record {
    answer =
        ap
          (λ r.
            fail_with {B = ProductMessage} internal "failed to get product: " r
              (λ p. product_message ids p stock))
          (found.answer
            ∙ ap (λ (q : Result Error ProductProduct × ProductWorld). q.0) here
            ∙ ap (λ (u : ProductWorld). or_no_rows (find_product id u.db)) same
            ∙ ap (λ (q : Result Error ProductProduct × ProductWorld). q.0) (sym there));
    state =
        found.state
        ∙ ap (λ (q : Result Error ProductProduct × ProductWorld). uncached q.1) here
        ∙ same
        ∙ ap (λ (q : Result Error ProductProduct × ProductWorld). uncached q.1) (sym there);
    coherent = found.coherent;
  }
    where
      silent : w.script ≡ []
      silent = ap (λ (u : ProductWorld). u.script) same ∙ calm

      found : Agrees (Cached.get_product_by_id id w) (Repository.get_product_by_id id w)
      found = get_product_by_id-Agrees id w silent c

      here : Repository.get_product_by_id id w ≡ (or_no_rows (find_product id w.db), w)
      here = read_table id w silent

      there : Repository.get_product_by_id id w' ≡ (or_no_rows (find_product id w'.db), w')
      there = read_table id w' calm

-- The end of `UpdateStock`, after the new stock.
abbrev finish :
    UuidText
    → ProductServer
    → Uuid
    → Result Status ℤ × ProductWorld
    → Result Status ProductMessage × ProductWorld
finish ids s id p = elim p.0 [ ok stock ↦ answer_stock ids s id stock p.1 | err st ↦ (err st, p.1) ]

finish-Agrees :
    (ids : UuidText) (h : Option HotdealRepository) (id : Uuid)
    (p q : Result Status ℤ × ProductWorld)
    → q.1.script ≡ []
    → Agrees p q
    → Agrees (finish ids (cached_server h) id p) (finish ids (db_server h) id q)
finish-Agrees ids h id (r, w) (r', w') k a =
    subst
      (λ o.
        Agrees {E = Status} {A = ProductMessage} (finish ids (cached_server h) id (o, w))
          (finish ids (db_server h) id (r', w')))
      (sym a.answer) (go r')
  where
    go :
        (o : Result Status ℤ)
        → Agrees {E = Status} {A = ProductMessage}
            (finish ids (cached_server h) id (o, w))
            (finish ids (db_server h) id (o, w'))
    go (ok stock) = answer_stock-Agrees ids h id stock w w' k a.state a.coherent
    go (err st) = record { answer = refl; state = a.state; coherent = a.coherent }

-- With no failing call, no caller that leaves and cached products that are those of the table,
-- `UpdateStock` of the server over the cached repository answers as over PostgreSQL alone, leaves
-- the same state but for the cache, and the cached products afterwards are those of the table. Cached
-- pages of products are not looked at, and keep the stock from before the change.
pub update_stock-Agrees :
    (ids : UuidText) (h : Option HotdealRepository) (product_id : String) (delta : ℤ)
    (w : ProductWorld)
    → w.script ≡ []
    → w.waits ≡ []
    → IsCoherent w
    → Agrees
        (update_stock ids (cached_server h) product_id delta w)
        (update_stock ids (db_server h) product_id delta w)
unfolding update_stock
update_stock-Agrees ids h product_id delta w calm quiet c = parsed (ids.parse product_id)
  where
    change : ProductServer → Result String Uuid → Result Status ProductMessage × ProductWorld
    change s (err e) = (err (status invalid_argument (append "invalid product ID: " e)), w)
    change s (ok id) =
        let (r, w') = new_stock s id delta w in
        elim r [ ok stock ↦ answer_stock ids s id stock w' | err st ↦ (err st, w') ]

    parsed :
        (r : Result String Uuid)
        → Agrees {E = Status} {A = ProductMessage}
            (change (cached_server h) r)
            (change (db_server h) r)
    parsed (err e) = record { answer = refl; state = refl; coherent = c }
    parsed (ok id) =
        finish-Agrees ids h id (new_stock (cached_server h) id delta w)
          (new_stock (db_server h) id delta w) (new_stock-calm id delta w calm quiet c h)
          (new_stock-Agrees id delta w calm quiet c h)
