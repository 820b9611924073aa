-- ===== src/Order/Lifecycle/Work.antt =====
-- A turn of the worker makes one change at most, whatever the calls do.
use mathlib.Core.Path.{◌∙◌, subst}
use flash_deals.Base.{
  ◌≤◌, ℤ, pos, add32, mul32, ◌≡◌, refl, sym, ap, none, some, List, [], ◌∷◌, ◌++◌, map, Result, ok,
  err, ◌>>=◌, ◌>>◌, pure, Outcome, done, refused, lost, next, rest, under, Option, Option-cases,
  inl, inr, arith,
}
use flash_deals.Order.State.{
  OrderWorld, OrderDb, OrdersOrder, OrdersOrderItem, OrderItemReq, OrderRequest, confirmed, Error,
  in_tx, commit_tx,
}
use flash_deals.Order.Queries.{find_order}
use flash_deals.Order.Queries.WithId.{create_order_with_id}
use flash_deals.Order.Queue.{split_last, dequeue, nothing_queued}
use flash_deals.Order.Queue.Fifo.{split_last-append}
use flash_deals.Order.Service.{raw}
use flash_deals.Order.Service.Transaction.{or_fail}
use flash_deals.Order.Service.Transaction.Any.{Unmoved, begin_tx_any, in_tx_any, commit_tx_any}
use flash_deals.Order.Service.Pricing.Total.{AllPriced, add_subtotals}
use flash_deals.Order.Service.Create.{insert_items}
use flash_deals.Order.Service.Create.Insert.{AreLines}
use flash_deals.Order.Worker.{order_total, worker_params, requested_line, process_order, work}
use flash_deals.Order.Lifecycle.{stored, Stored, Change, kept, taken, worked}
use flash_deals.Order.Lifecycle.Rows.{insert_items_any}

create_order_with_id_lem :
    (req : OrderRequest) (db db' : OrderDb) (order : OrdersOrder)
    → create_order_with_id (worker_params req) db ≡ (ok order, db')
    → (order.id ≡ req.order_id)
      × (order.status ≡ confirmed)
      × (order.total_amount ≡ order_total (pos 0) req.items)
      × (find_order req.order_id db ≡ none)
      × (db'.orders ≡ order ∷ db.orders)
      × (db'.order_items ≡ db.order_items)
      × (db.next_id ≤ db'.next_id)
unfolding create_order_with_id
create_order_with_id_lem req db db' order h = elim (Option-cases (find_order req.order_id db)) [
  | inl e ↦ (
    ground (arith, e, h),
    ground (arith, e, h),
    ground (arith, e, h),
    e,
    ground (arith, e, h),
    ground (arith, e, h),
    ground (arith, e, h),
  )
  | inr (o, e) ↦ absurd (ground (arith, e, h))
]

-- The lines that the worker makes of a message are priced, and it adds them up.
requested-AllPriced : (items : List OrderItemReq) → AllPriced (map requested_line items)
requested-AllPriced [] = tt
requested-AllPriced (i ∷ is) = (refl, requested-AllPriced is)

order_total_lem :
    (total : ℤ) (items : List OrderItemReq)
    → order_total total items ≡ add_subtotals total (map requested_line items)
order_total_lem total [] = refl
order_total_lem total (i ∷ is) = order_total_lem (add32 total (mul32 i.unit_price i.quantity)) is

module _ {R : Type 0} (m : OrderRequest) (w w0 : OrderWorld R) (same : w0.db ≡ w.db)
    (last : w.queue ≡ w0.queue ++ m ∷ []) where
  abbrev Q : OrderWorld R → Type 0
  Q w' = Change (stored w) (stored w')

  -- The message is out of the queue, and no row has changed.
  dropped : (w' : OrderWorld R) → Unmoved w0 w' → Q w'
  dropped w' (d, q) =
      subst (λ s. Change (stored w) s) (λ i. record { db = sym (d ∙ same) i; queue = sym q i })
        (taken m (refl, refl, omega arith) last)

  written :
      (order : OrdersOrder) (tx tx' : OrderDb) (rows : List OrdersOrderItem)
      → create_order_with_id (worker_params m) w0.db ≡ (ok order, tx)
      → AreLines order.id (map requested_line m.items) rows
      → tx'.orders ≡ tx.orders
      → tx'.order_items ≡ tx.order_items ++ rows
      → tx.next_id ≤ tx'.next_id
      → (w' : OrderWorld R) → w'.db ≡ tx'
      → w'.queue ≡ w0.queue
      → Q w'
  written order tx tx' rows e lines os is n w' d q =
      let (id, st, total, new, made, items, next) =
        create_order_with_id_lem m w.db tx order
          (subst (λ db. create_order_with_id (worker_params m) db ≡ (ok order, tx)) same e) in
      subst (λ (s : Stored). Change (stored w) s) (λ i. record { db = sym d i; queue = sym q i })
        (worked m order
          (record {
            rows = rows;
            lines = map requested_line m.items;
            added_order = os ∙ made;
            added_items = is ∙ ap (λ (l : List OrdersOrderItem). l ++ rows) items;
            are_lines = lines;
            priced = requested-AllPriced m.items;
            summed = total ∙ order_total_lem (pos 0) m.items;
          })
          id st new (omega (arith, next, n)) last)

  process_order-Change : Q (process_order m w0).1
  unfolding process_order
  process_order-Change =
      begin_tx_any Q raw w0 w0 (refl, refl)
        (λ tx. or_fail raw (in_tx (create_order_with_id (worker_params m)) tx) >>= λ a.
          or_fail raw (insert_items a.0.id (map requested_line m.items) a.1) >>= λ b.
          or_fail raw (commit_tx b.1) >> pure tt)
        (λ w1 s.
          in_tx_any Q raw w0 w1 s (create_order_with_id (worker_params m)) w0.db
            (λ a. or_fail raw (insert_items a.0.id (map requested_line m.items) a.1) >>= λ b.
              or_fail raw (commit_tx b.1) >> pure tt)
            (λ order tx w2 e t.
              insert_items_any Q raw w0 w2 t order.id (map requested_line m.items) tx
                (λ b. or_fail raw (commit_tx b.1) >> pure tt)
                (λ rows tx' w3 lines os is n u.
                  commit_tx_any Q raw w0 w3 u tx' (λ _. pure tt)
                    (written order tx tx' rows e lines os is n)
                    (written order tx tx' rows e lines os is n) dropped)
                dropped)
            dropped)
        dropped

-- A turn of the worker, whatever its calls do.
pub work-Change : {R : Type 0} (w : OrderWorld R) → Change (stored w) (stored (work w))
unfolding work dequeue
work-Change {R} w = go (next w.script)
  where
    w1 : OrderWorld R
    w1 = record w { script = rest w.script }

    unchanged : Change (stored w) (stored w1)
    unchanged = kept (refl, refl, omega arith) refl

    answered :
        (l : Option (List OrderRequest × OrderRequest))
        → split_last w.queue ≡ l
        → (let p : Result Error OrderRequest × OrderWorld R = elim l [
          | none ↦ (err nothing_queued, w1)
          | some (others, req) ↦ (ok req, record w1 { queue = others })
        ] in
            let after : OrderWorld R = elim p.0 [
              | ok req ↦ (process_order req p.1).1
              | err _ ↦ p.1
            ] in
            Change (stored w) (stored after))
    answered none e = unchanged
    answered (some (others, m)) e =
        process_order-Change m w (record w1 { queue = others }) refl
          (split_last-append w.queue others m e)

    unheard :
        (l : Option (List OrderRequest × OrderRequest))
        → split_last w.queue ≡ l
        → (let p : Result Error OrderRequest × OrderWorld R = elim l [
          | none ↦ (err nothing_queued, w1)
          | some (others, req) ↦ (ok req, record w1 { queue = others })
        ] in
            Change (stored w) (stored p.1))
    unheard none e = unchanged
    unheard (some (others, m)) e =
        taken m (refl, refl, omega arith) (split_last-append w.queue others m e)

    go :
        (o : Outcome Error)
        → (let p : Result Error OrderRequest × OrderWorld R =
              under o
                (λ v. elim (split_last v.queue) [
                  | none ↦ (err nothing_queued, v)
                  | some (others, req) ↦ (ok req, record v { queue = others })
                ])
                w1 in
            let after : OrderWorld R = elim p.0 [
              | ok req ↦ (process_order req p.1).1
              | err _ ↦ p.1
            ] in
            Change (stored w) (stored after))
    go done = answered (split_last w.queue) refl
    go (refused x) = unchanged
    go (lost x) = unheard (split_last w.queue) refl
