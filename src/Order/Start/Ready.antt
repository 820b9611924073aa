-- ===== src/Order/Start/Ready.antt =====
-- Which start of the order service succeeds, and what it has then.
use flash_deals.Base.{
  String, Bool, true, false, ◌≡◌, ◌≢◌, ◌⊎◌, inl, inr, refl, sym, Option, none, some, Result, ok,
  err, arith,
}
use flash_deals.Env.{Environment}
use flash_deals.Order.Client.Init.{init_client, no_client}
use flash_deals.Order.Handler.Create.{new_order_handler, set_async_enabled, set_order_queue}
use flash_deals.Order.Start.{load}
use flash_deals.Order.Start.Main.{
  StartCalls, OrderApp, order_app, start_queue, serve_http, start_order,
}

-- Redis is asked only where the queue is switched on.
abbrev pub NeedsRedis : Environment → StartCalls → Type 0
NeedsRedis env calls = ((load env).async_order_enabled ≡ true) × (calls.ping ≢ none)

abbrev pub Starts : Environment → StartCalls → Result String OrderApp → Type 0
Starts env calls (ok app) =
    (calls.pool ≡ none)
    × (calls.dial ≡ none)
    × (((load env).async_order_enabled ≡ false) ⊎ (calls.ping ≡ none))
    × (calls.serve ≡ none)
    × (app.handler.async_enabled ≡ (load env).async_order_enabled)
    × (app.handler.has_queue ≡ app.handler.async_enabled)
    × (app.worker ≡ app.handler.async_enabled)
    × (app.client.has_client ≡ true)
Starts env calls (err message) =
    (calls.pool ≢ none) ⊎ ((calls.dial ≢ none) ⊎ (NeedsRedis env calls ⊎ (calls.serve ≢ none)))

-- Whatever the environment says: the order service runs unless the pool of connections or the client of
-- the product service cannot be made, the queue is switched on and Redis does not answer, or the HTTP
-- server fails to start; in each of these cases the process ends. A service that runs has the client, and
-- its handler takes orders by the queue exactly where the queue is switched on, and exactly there the
-- queue is set in its service and the worker runs.
pub start_order-Starts :
    (env : Environment) (calls : StartCalls) → Starts env calls (start_order env calls)
unfolding start_order init_client start_queue serve_http order_app new_order_handler
    set_async_enabled set_order_queue
start_order-Starts env calls = go calls.tracer calls.pool calls.dial calls.ping calls.serve
  where
    made : Option String → Option String → Option String → StartCalls
    made t g h = record { tracer = t; pool = none; dial = none; ping = g; serve = h }

    served :
        (t g h : Option String) (app : OrderApp)
        → ((load env).async_order_enabled ≡ false) ⊎ (g ≡ none)
        → app.handler.async_enabled ≡ (load env).async_order_enabled
        → app.handler.has_queue ≡ app.handler.async_enabled
        → app.worker ≡ app.handler.async_enabled
        → app.client.has_client ≡ true
        → Starts env (made t g h) (serve_http h app)
    served t g none app redis async queue worker client =
        (refl, refl, redis, refl, async, queue, worker, client)
    served t g (some x) app redis async queue worker client =
        inr (inr (inr (λ k. ground (arith, k))))

    queued :
        (a : Bool) (t g h : Option String)
        → (load env).async_order_enabled ≡ a
        → Starts env
            (made t g h)
            (elim (start_queue a g
              (order_app (load env) (made t g h) (init_client none no_client).1)) [
                | err e ↦ err e
                | ok app ↦ serve_http h app
              ])
    queued false t g h e = served t g h _ (inl e) (sym e) refl refl refl
    queued true t none h e = served t none h _ (inr refl) (sym e) refl refl refl
    queued true t (some x) h e = inr (inr (inl (e, λ k. ground (arith, k))))

    go :
        (t p d g h : Option String)
        → Starts env
            (record { tracer = t; pool = p; dial = d; ping = g; serve = h })
            (start_order env (record { tracer = t; pool = p; dial = d; ping = g; serve = h }))
    go t (some x) d g h = inl (λ k. ground (arith, k))
    go t none (some x) g h = inr (inl (λ k. ground (arith, k)))
    go t none none g h = queued (load env).async_order_enabled t g h refl
