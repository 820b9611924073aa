-- ===== src/Order/Worker/Drains.antt =====
-- The worker's loop empties the queue of orders.
use flash_deals.Base.{
  ℕ, zero, suc, ◌≡◌, refl, sym, ap, ◌∙◌, some, Option-cases, inl, inr, List, [], ◌∷◌, ◌++◌, map,
  length, Uuid, Result, ok, err, Exec, ◌>>=◌, ◌>>◌, pure, bind_keeps, arith,
}
use flash_deals.Order.State.{OrderWorld, OrderDb, OrderRequest, Error, begin_tx, in_tx, commit_tx}
use flash_deals.Order.Queries
use flash_deals.Order.Queries.WithId.{create_order_with_id}
use flash_deals.Order.Queue.{split_last, dequeue}
use flash_deals.Order.Queue.Fifo.{in_order, in_order-append, split_last-append}
use flash_deals.Order.Service.{raw}
use flash_deals.Order.Service.Transaction.{or_fail}
use flash_deals.Order.Service.Pricing.{OrderItemData}
use flash_deals.Order.Service.Create.{item_params, insert_items}
use flash_deals.Order.Worker.{worker_params, requested_line, process_order, work}

-- No call fails from here on, and those messages wait.
abbrev pub Waits : {R : Type 0} → List OrderRequest → OrderWorld R → Type 0
Waits q w = (w.queue ≡ q) × (w.script ≡ [])

module _ {R : Type 0} (q : List OrderRequest) where
  pub in_tx-Waits :
      {A : Type 0} (m : Exec OrderDb Error A) (tx : OrderDb) (w : OrderWorld R)
      → Waits q w
      → Waits q (in_tx m tx w).1
  in_tx-Waits m tx w (e, s) = (ground (arith, e, s), ground (arith, e, s))

  pub insert_items-Waits :
      (id : Uuid) (ds : List OrderItemData) (tx : OrderDb) (w : OrderWorld R)
      → Waits q w
      → Waits q (insert_items id ds tx w).1
  unfolding insert_items
  insert_items-Waits id [] tx w h = h
  insert_items-Waits id (d ∷ ds) tx w h =
      bind_keeps (Waits q) (in_tx (Queries.create_order_item (item_params id d)) tx)
        (λ a. insert_items id ds a.1 >>= λ b. pure (a.0 ∷ b.0, b.1)) w
        (in_tx-Waits (Queries.create_order_item (item_params id d)) tx w h)
        (λ a w1 h1.
          bind_keeps (Waits q) (insert_items id ds a.1) (λ b. pure (a.0 ∷ b.0, b.1)) w1
            (insert_items-Waits id ds a.1 w1 h1) (λ b w2 h2. h2))

  pub process_order-Waits :
      (req : OrderRequest) (w : OrderWorld R) → Waits q w → Waits q (process_order req w).1
  unfolding process_order
  process_order-Waits req w (e, s) =
      bind_keeps (Waits q) (or_fail raw begin_tx)
        (λ tx. or_fail raw (in_tx (create_order_with_id (worker_params req)) tx) >>= λ a.
          or_fail raw (insert_items a.0.id (map requested_line req.items) a.1) >>= λ b.
          or_fail raw (commit_tx b.1) >> pure tt)
        w (ground (arith, e, s), ground (arith, e, s))
        (λ tx w1 h1.
          bind_keeps (Waits q) (or_fail raw (in_tx (create_order_with_id (worker_params req)) tx))
            (λ a. or_fail raw (insert_items a.0.id (map requested_line req.items) a.1) >>= λ b.
              or_fail raw (commit_tx b.1) >> pure tt)
            w1 (in_tx-Waits (create_order_with_id (worker_params req)) tx w1 h1)
            (λ a w2 h2.
              bind_keeps (Waits q)
                (or_fail raw (insert_items a.0.id (map requested_line req.items) a.1))
                (λ b. or_fail raw (commit_tx b.1) >> pure tt) w2
                (insert_items-Waits a.0.id (map requested_line req.items) a.1 w2 h2)
                (λ b w3 h3.
                  bind_keeps (Waits q) (or_fail raw (commit_tx b.1)) (λ _. pure tt) w3
                    (ground (arith, h3), ground (arith, h3)) (λ _ w4 h4. h4))))

-- The message that a turn of the loop takes, if it takes one.
abbrev pub taken : Result Error OrderRequest → List OrderRequest
taken (ok req) = req ∷ []
taken (err e) = []

length-append :
    (xs : List OrderRequest) (x : OrderRequest) → length (xs ++ x ∷ []) ≡ suc (length xs)
length-append [] x = refl
length-append (y ∷ ys) x = ap suc (length-append ys x)

no_messages : (l : List OrderRequest) → length l ≡ 0 → l ≡ []
no_messages [] e = refl
no_messages (x ∷ xs) e = absurd (ground (arith, e))

split_last-some :
    (n : ℕ) (l : List OrderRequest)
    → length l ≡ suc n
    → (ys : List OrderRequest) × (y : OrderRequest) × (split_last l ≡ some (ys, y))
split_last-some n [] h = absurd (ground (arith, h))
split_last-some n (x ∷ xs) h = elim (Option-cases (split_last xs)) [
  | inl e ↦ ([], x, ground (arith, e))
  | inr ((ys, y), e) ↦ (x ∷ ys, y, ground (arith, e))
]

module _ {R : Type 0} where
  -- So many turns, with the messages that they take.
  abbrev pub turns : ℕ → OrderWorld R → List OrderRequest × OrderWorld R
  turns zero w = ([], w)
  turns (suc n) w = let (later, w') = turns n (work w) in (taken (dequeue w).0 ++ later, w')

  dequeue_last :
      (w : OrderWorld R) (ys : List OrderRequest) (y : OrderRequest)
      → w.script ≡ []
      → split_last w.queue ≡ some (ys, y)
      → dequeue w ≡ (ok y, record w { queue = ys })
  unfolding dequeue
  dequeue_last w ys y calm e = ground (arith, calm, e)

  work_last :
      (w : OrderWorld R) (ys : List OrderRequest) (y : OrderRequest)
      → w.script ≡ []
      → split_last w.queue ≡ some (ys, y)
      → work w ≡ (process_order y (record w { queue = ys })).1
  unfolding work
  work_last w ys y calm e = ground (arith, dequeue_last w ys y calm e)

  drained :
      (n : ℕ) (w : OrderWorld R)
      → length w.queue ≡ n
      → w.script ≡ []
      → ((turns n w).0 ≡ in_order w.queue) × ((turns n w).1.queue ≡ [])
  drained zero w size calm =
      (ap in_order (sym (no_messages w.queue size)), no_messages w.queue size)
  drained (suc n) w size calm =
      let (ys, y, e) = split_last-some n w.queue size in
      let all = split_last-append w.queue ys y e in
      let w1 = (process_order y (record w { queue = ys })).1 in
      let (left, calm1) = process_order-Waits ys y (record w { queue = ys }) (refl, calm) in
      let (first, last) =
        drained n w1 (ap length left ∙ omega (arith, length-append ys y, ap length all, size))
          calm1 in
      (
        ap (λ (p : Result Error OrderRequest × OrderWorld R). taken p.0 ++ (turns n (work w)).0)
              (dequeue_last w ys y calm e)
            ∙ ap (λ (u : OrderWorld R). y ∷ (turns n u).0) (work_last w ys y calm e)
            ∙ ap (λ l. y ∷ l) (first ∙ ap in_order left)
            ∙ sym (ap in_order all ∙ in_order-append ys y),
        ap (λ (u : OrderWorld R). (turns n u).1.queue) (work_last w ys y calm e) ∙ last,
      )

  -- With no failing call, as many turns of the worker as messages wait take each message once, in the order
  -- in which they came, and leave the queue empty, whichever of the orders can be written.
  pub work-drains :
      (w : OrderWorld R)
      → w.script ≡ []
      → ((turns (length w.queue) w).0 ≡ in_order w.queue)
        × ((turns (length w.queue) w).1.queue ≡ [])
  work-drains w calm = drained (length w.queue) w refl calm
