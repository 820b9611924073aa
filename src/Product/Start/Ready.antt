-- ===== src/Product/Start/Ready.antt =====
-- Which start of the product service succeeds, and what its two servers share.
use mathlib.Core.Path.{subst}
use flash_deals.Base.{
  ℤ, String, Bool, true, false, ◌≡◌, ◌≢◌, ◌⊎◌, inl, inr, refl, sym, ap, ◌∙◌, ◌&&◌, [], Option, none,
  some, Result, ok, err, UuidText, if◌then◌else◌, arith,
}
use flash_deals.Env.{Environment}
use flash_deals.Product.State.{ProductWorld}
use flash_deals.Product.Repository.Cached.Coherence.{IsCoherent}
use flash_deals.Product.Handler.{ProductHandler}
use flash_deals.Product.Server.{ProductServer, update_stock}
use flash_deals.Product.Server.View.{db_server}
use flash_deals.Product.Server.Cache.Promises.{server_over}
use flash_deals.Product.Start.{load, start_handler, start_server}
use flash_deals.Product.Start.Choice.{SameButCache, start_server-over, update_stock-start_server}
use flash_deals.Product.Start.Main.{
  StartCalls, ProductApp, succeeded, start_grpc_server, serve_grpc, serve_http, product_app,
  start_product,
}

-- The gRPC server is there where it is switched on and can listen, over what the HTTP handler has.
abbrev pub Serves : Environment → StartCalls → ProductApp → Option ProductServer → Type 0
Serves env calls app none = ((load env).grpc_enabled ≡ false) ⊎ (calls.listen ≢ none)
Serves env calls app (some s) =
    ((load env).grpc_enabled ≡ true)
    × (calls.listen ≡ none)
    × (s ≡ start_server (load env) (succeeded calls.ping))
    × (s.repo ≡ app.handler.repo)
    × (s.hotdeal_repo ≡ app.handler.hotdeal_repo)

-- Whether the server that is started caches products.
abbrev pub caches : Environment → StartCalls → Bool
caches env calls = (load env).enable_cache && succeeded calls.ping

abbrev pub Starts : Environment → StartCalls → Result String ProductApp → Type 0
Starts env calls (ok app) =
    (calls.pool ≡ none) × (calls.serve ≡ none) × Serves env calls app app.server
Starts env calls (err message) = (calls.pool ≢ none) ⊎ (calls.serve ≢ none)

-- Whatever the environment says and whether Redis answers: the product service runs exactly where its pool
-- of connections can be made and its HTTP server starts. Its gRPC server is there exactly where it is
-- switched on and can listen, over the repository and the hot deals that the HTTP handler has.
pub start_product-Starts :
    (env : Environment) (calls : StartCalls) → Starts env calls (start_product env calls)
unfolding start_product serve_http start_handler start_server serve_grpc start_grpc_server
start_product-Starts env calls = go calls.tracer calls.pool calls.ping calls.listen calls.serve
  where
    serves :
        (t g l : Option String) (a : Bool)
        → (load env).grpc_enabled ≡ a
        → (let calls' : StartCalls = record {
          tracer = t;
          pool = none;
          ping = g;
          listen = l;
          serve = none;
        } in
            (app : ProductApp)
            → app.handler ≡ start_handler (load env) (succeeded g)
            → Serves env calls' app (
                if a
                then (elim (start_grpc_server (load env) (succeeded g) l) [
                  | ok s ↦ some s
                  | err e ↦ none
                ])
                else none))
    serves t g l false e app h = inl e
    serves t g none true e app h = (
      e,
      refl,
      refl,
      ap (λ (x : ProductHandler). x.repo) (sym h),
      ap (λ (x : ProductHandler). x.hotdeal_repo) (sym h),
    )
    serves t g (some x) true e app h = inr (λ k. ground (arith, k))

    go :
        (t p g l h : Option String)
        → Starts env
            (record { tracer = t; pool = p; ping = g; listen = l; serve = h })
            (start_product env (record { tracer = t; pool = p; ping = g; listen = l; serve = h }))
    go t (some x) g l h = inl (λ k. ground (arith, k))
    go t none g l (some x) = inr (λ k. ground (arith, k))
    go t none g l none = (
      refl,
      refl,
      serves t g l (load env).grpc_enabled refl
          (product_app (load env)
            (record { tracer = t; pool = none; ping = g; listen = l; serve = none }))
          refl,
    )

-- For the gRPC server of a product service that has started, whatever its environment says and whether Redis
-- has answered at the start: with no failing call after it, no caller that leaves, and cached products that
-- are those of the table, `UpdateStock` answers as a server without a cache, over the hot deals that the
-- HTTP handler has, and does the same to tables and stocks.
pub start_product-update_stock :
    (env : Environment) (calls : StartCalls) (app : ProductApp) (s : ProductServer) (ids : UuidText)
    (product_id : String) (delta : ℤ) (w : ProductWorld)
    → start_product env calls ≡ ok app
    → app.server ≡ some s
    → w.script ≡ []
    → w.waits ≡ []
    → IsCoherent w
    → SameButCache
        (update_stock ids s product_id delta w)
        (update_stock ids (db_server app.handler.hotdeal_repo) product_id delta w)
unfolding start_server
start_product-update_stock env calls app s ids product_id delta w started has calm quiet c =
    let ready = subst (Starts env calls) started (start_product-Starts env calls) in
    let (_, _, same, _, hot) = subst (Serves env calls app) has ready.2 in
    subst
      (λ h.
        SameButCache (update_stock ids s product_id delta w)
          (update_stock ids (db_server h) product_id delta w))
      hot
      (subst
        (λ (x : ProductServer).
          SameButCache (update_stock ids x product_id delta w)
            (update_stock ids (db_server x.hotdeal_repo) product_id delta w))
        (sym same)
        (update_stock-start_server env (succeeded calls.ping) ids product_id delta w calm quiet c))

-- The gRPC server that is started, with the cache or without.
pub start_product-server_over :
    (env : Environment) (calls : StartCalls) (app : ProductApp) (s : ProductServer)
    → start_product env calls ≡ ok app
    → app.server ≡ some s
    → s ≡ server_over (caches env calls) s.hotdeal_repo
unfolding start_server
start_product-server_over env calls app s started has =
    let ready = subst (Starts env calls) started (start_product-Starts env calls) in
    let (_, _, same, _, _) = subst (Serves env calls app) has ready.2 in
    same
    ∙ start_server-over (load env) (succeeded calls.ping)
    ∙ ap (λ (x : ProductServer). server_over (caches env calls) x.hotdeal_repo) (sym same)
