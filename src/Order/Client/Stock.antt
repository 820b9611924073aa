-- ===== src/Order/Client/Stock.antt =====
-- The client's calls keep the promises of the service about the stock, over a reliable connection.
use mathlib.Core.Path.{◌∙◌, subst}
use flash_deals.Base.{
  ℤ, max_int32, ◌≤ℤ◌, ◌+ℤ◌, ◌≡◌, refl, sym, true, [], Uuid, UuidText, Result, ok, err, arith, Exec,
}
use flash_deals.Rpc.{ProductService, Status}
use flash_deals.Rpc.Stock.{IsQuantity, StockView, Shift, Same, Takes, Gives, StockLaws}
use flash_deals.Order.State.{OrderWorld, RpcError, status_error}
use flash_deals.Order.Client.{
  ClientError, request, handle_grpc_error, decrease_error, stock_result, product_info, deal_info,
  decrease_stock, increase_stock, get_product, get_deal,
}

-- The client is there and no call is lost.
pub record IsReady {R : Type 0} (v : StockView R) (w : OrderWorld R) : Type 0 where
  pub valid : v.Valid w.remote
  pub no_faults : w.net ≡ []
  pub connected : w.connected ≡ true

-- The stock as the order service sees it.
abbrev pub order_view : {R : Type 0} → StockView R → StockView (OrderWorld R)
order_view v = record {
  Valid = IsReady v;
  Known = λ w. v.Known w.remote;
  stock = λ w. v.stock w.remote;
}

module _ {R : Type 0} (v : StockView R) where
  pub Shift-world :
      (id : Uuid) (q : ℤ) (w w' : OrderWorld R)
      → IsReady v w
      → w'.net ≡ []
      → w'.connected ≡ w.connected
      → Shift v id q w.remote w'.remote
      → Shift (order_view v) id q w w'
  Shift-world id q w w' h n c s = record {
    valid = record { valid = s.valid; no_faults = n; connected = cc (h.connected) };
    known = s.known;
    at = s.at;
  }

  pub Same-world :
      (w w' : OrderWorld R)
      → IsReady v w
      → w'.net ≡ []
      → w'.connected ≡ w.connected
      → Same v w.remote w'.remote
      → Same (order_view v) w w'
  Same-world w w' h n c s = record {
    valid = record { valid = s.valid; no_faults = n; connected = cc (h.connected) };
    known = s.known;
    at = s.at;
  }

-- What a call of the client leaves alone.
abbrev pub Kept : {R : Type 0} → OrderWorld R → OrderWorld R → Type 0
Kept w w' = (w'.db ≡ w.db) × (w'.script ≡ w.script) × (w'.queue ≡ w.queue)

pub Kept-trans : {R : Type 0} (w1 w2 w3 : OrderWorld R) → Kept w1 w2 → Kept w2 w3 → Kept w1 w3
Kept-trans w1 w2 w3 (d, s, q) (d', s', q') = (d' ∙ d, s' ∙ s, q' ∙ q)

module _ {R : Type 0} (ids : UuidText) (svc : ProductService R) where
  pub decrease_stock-Kept :
      (id : Uuid) (q : ℤ) (w : OrderWorld R) → Kept w (decrease_stock ids svc id q w).1
  unfolding decrease_stock
  decrease_stock-Kept id q w = ground arith

  pub increase_stock-Kept :
      (id : Uuid) (q : ℤ) (w : OrderWorld R) → Kept w (increase_stock ids svc id q w).1
  unfolding increase_stock
  increase_stock-Kept id q w = ground arith

  pub get_product-Kept : (id : Uuid) (w : OrderWorld R) → Kept w (get_product ids svc id w).1
  unfolding get_product
  get_product-Kept id w = ground arith

  pub get_deal-Kept : (id : Uuid) (w : OrderWorld R) → Kept w (get_deal ids svc id w).1
  unfolding get_deal
  get_deal-Kept id w = ground arith

-- What the client makes of an answer, and the state after it.
abbrev replied :
    {R M A : Type 0}
    → (M → A)
    → (RpcError → ClientError)
    → Result Status M × R
    → OrderWorld R
    → Result ClientError A × OrderWorld R
replied f g (ok m, r) w = (ok (f m), record w { remote = r; net = [] })
replied f g (err e, r) w = (err (g (status_error e)), record w { remote = r; net = [] })

module _ {R M A : Type 0} (v : StockView R) (f : M → A) (g : RpcError → ClientError) where
  replied-Takes :
      (id : Uuid) (q : ℤ) (w : OrderWorld R) (p : Result Status M × R)
      → IsReady v w
      → Takes v id q w.remote p
      → Takes (order_view v) id q w (replied f g p w)
  replied-Takes id q w (ok m, r) h (s, k) = (Shift-world v id _ w _ h refl refl s, k)
  replied-Takes id q w (err e, r) h s = Same-world v w _ h refl refl s

  replied-Gives :
      (id : Uuid) (q : ℤ) (w : OrderWorld R) (p : Result Status M × R)
      → IsReady v w
      → Gives v id q w.remote p
      → Gives (order_view v) id q w (replied f g p w)
  replied-Gives id q w (ok m, r) h s = Shift-world v id q w _ h refl refl s
  replied-Gives id q w (err e, r) h s = s

  replied-Same :
      (w : OrderWorld R) (p : Result Status M × R)
      → IsReady v w
      → Same v w.remote p.1
      → Same (order_view v) w (replied f g p w).1
  replied-Same w (ok m, r) h s = Same-world v w _ h refl refl s
  replied-Same w (err e, r) h s = Same-world v w _ h refl refl s

  -- A call over a reliable connection is the call of the service.
  request_lem :
      (op : Exec R Status M) (w : OrderWorld R)
      → IsReady v w
      → request op f g w ≡ replied f g (op w.remote) w
  request_lem op w h = ground (arith, h.no_faults, h.connected)

module _ {R : Type 0} (ids : UuidText) (svc : ProductService R) (laws : StockLaws ids svc) where
  open laws use {view}

  pub decrease_stock-Takes :
      (id : Uuid) (q : ℤ) (w : OrderWorld R)
      → IsReady view w
      → IsQuantity q
      → Takes (order_view view) id q w (decrease_stock ids svc id q w)
  unfolding decrease_stock
  decrease_stock-Takes id q w h b =
      subst (Takes (order_view view) id q w) (sym (request_lem view _ _ _ w h)) (
        replied-Takes view stock_result (λ e. decrease_error e (ids.format id)) id q w _ h
          (laws.takes w.remote id q h.valid b))

  pub increase_stock-Gives :
      (id : Uuid) (q : ℤ) (w : OrderWorld R)
      → IsReady view w
      → view.Known w.remote id
      → IsQuantity q
      → view.stock w.remote id +ℤ q ≤ℤ max_int32
      → Gives (order_view view) id q w (increase_stock ids svc id q w)
  unfolding increase_stock
  increase_stock-Gives id q w h k b room =
      subst (Gives (order_view view) id q w) (sym (request_lem view _ _ _ w h)) (
        replied-Gives view stock_result (λ e. handle_grpc_error e "Product" (ids.format id)) id q w
          _ h (laws.gives w.remote id q h.valid k b room))

  pub get_product-Same :
      (id : Uuid) (w : OrderWorld R)
      → IsReady view w
      → Same (order_view view) w (get_product ids svc id w).1
  unfolding get_product
  get_product-Same id w h =
      subst (λ p. Same (order_view view) w p.1) (sym (request_lem view _ _ _ w h))
        (replied-Same view product_info (λ e. handle_grpc_error e "Product" (ids.format id)) w _ h
          (laws.get_product_Same w.remote (ids.format id) h.valid))

  pub get_deal-Same :
      (id : Uuid) (w : OrderWorld R)
      → IsReady view w
      → Same (order_view view) w (get_deal ids svc id w).1
  unfolding get_deal
  get_deal-Same id w h =
      subst (λ p. Same (order_view view) w p.1) (sym (request_lem view _ _ _ w h))
        (replied-Same view deal_info (λ e. handle_grpc_error e "Deal" (ids.format id)) w _ h
          (laws.get_deal_Same w.remote (ids.format id) h.valid))
