-- ===== src/Order/Worker/Processed.antt =====
-- What one turn of the worker does.
use mathlib.Core.Path.{◌∙◌, subst}
use flash_deals.Base.{
  ◌≡◌, refl, ap, pos, none, List, ◌∷◌, ◌++◌, map, Result, ok, err, Exec, ◌>>=◌, ◌>>◌, pure,
  bind_cases, NoLost, arith, Option-cases, inl, inr,
}
use flash_deals.Order.State.{
  OrderWorld, OrderDb, OrdersOrder, OrdersOrderItem, OrderRequest, confirmed, in_tx, commit_tx,
  Error,
}
use flash_deals.Order.Queries.{find_order}
use flash_deals.Order.Queries.WithId.{create_order_with_id}
use flash_deals.Order.Service.{Failure, raw}
use flash_deals.Order.Service.Transaction.{
  Idle, Idle-trans, or_fail, or_fail-ok, or_fail-err, begin_tx_cases, in_tx_cases, commit_tx_cases,
}
use flash_deals.Order.Service.Create.{insert_items}
use flash_deals.Order.Service.Create.Insert.{AreLines, InsertsItems, insert_items-InsertsItems}
use flash_deals.Order.Worker.{order_total, worker_params, requested_line, process_order}

-- The row of a message.
abbrev pub IsRequested : OrderRequest → OrdersOrder → Type 0
IsRequested req order =
    (order.id ≡ req.order_id)
    × (order.user_id ≡ req.user_id)
    × (order.status ≡ confirmed)
    × (order.total_amount ≡ order_total (pos 0) req.items)

-- What `process_order` has done, by how it ended.
abbrev pub Processes :
    {R : Type 0} → OrderRequest → OrderWorld R → Result Failure (Unit {0}) × OrderWorld R → Type 0
Processes req w (ok _, w') =
    (order : OrdersOrder) × (rows : List OrdersOrderItem) × IsRequested req order
    × (find_order req.order_id w.db ≡ none)
    × AreLines req.order_id (map requested_line req.items) rows
    × (w'.db.orders ≡ order ∷ w.db.orders)
    × (w'.db.order_items ≡ w.db.order_items ++ rows)
    × (w'.remote ≡ w.remote)
Processes req w (err e, w') = (w'.db ≡ w.db) × (w'.remote ≡ w.remote)

create_order_with_id_lem :
    (req : OrderRequest) (db db' : OrderDb) (order : OrdersOrder)
    → create_order_with_id (worker_params req) db ≡ (ok order, db')
    → IsRequested req order
      × (find_order req.order_id db ≡ none)
      × (db'.orders ≡ order ∷ db.orders)
      × (db'.order_items ≡ db.order_items)
unfolding create_order_with_id
create_order_with_id_lem req db db' order h = elim (Option-cases (find_order req.order_id db)) [
  | inl e ↦ (
    (ground (arith, e, h), ground (arith, e, h), ground (arith, e, h), ground (arith, e, h)),
    e,
    ground (arith, e, h),
    ground (arith, e, h),
  )
  | inr (o, e) ↦ absurd (ground (arith, e, h))
]

module _ {R : Type 0} (req : OrderRequest) (w : OrderWorld R) where
  items_written :
      (order : OrdersOrder) (tx : OrderDb) (w' : OrderWorld R)
      → create_order_with_id (worker_params req) w.db ≡ (ok order, tx)
      → Idle w w'
      → Processes req w (
          (or_fail raw (insert_items order.id (map requested_line req.items) tx) >>= λ a.
          or_fail raw (commit_tx a.1) >> pure tt)
            w')
  items_written order tx w' made s =
      let m : Exec (OrderWorld R) Error (List OrdersOrderItem × OrderDb) =
        insert_items order.id (map requested_line req.items) tx in
      bind_cases (Processes req w) (or_fail raw m) (λ a. or_fail raw (commit_tx a.1) >> pure tt) w'
        (λ a w2 e.
          let h : InsertsItems order.id (map requested_line req.items) tx w' (ok a, w2) =
            subst (InsertsItems order.id (map requested_line req.items) tx w')
              (or_fail-ok raw m w' w2 a e)
              (insert_items-InsertsItems order.id (map requested_line req.items) tx w' s.2) in
          let (lines, orders, items, d, b, l, _) = h in
          let (is, new, os, none_yet) = create_order_with_id_lem req w.db tx order made in
          commit_tx_cases (Processes req w) raw w w2 (Idle-trans w w' w2 s (d, b, l)) a.1
            (λ _. pure tt)
            (λ w3 d3 b3. (
              order,
              a.0,
              is,
              new,
              subst (λ i. AreLines i (map requested_line req.items) a.0) is.0 lines,
              ap (λ (t : OrderDb). t.orders) d3 ∙ orders ∙ os,
              ap (λ (t : OrderDb). t.order_items) d3
                  ∙ items
                  ∙ ap (λ (t : List OrdersOrderItem). t ++ a.0) none_yet,
              b3.0,
            ))
            (λ e3 w3 t. (t.0, t.1.0)))
        (λ e w2 eq.
          let (x, ex) = or_fail-err raw m w' w2 e eq in
          let h : InsertsItems order.id (map requested_line req.items) tx w' (err x, w2) =
            subst (InsertsItems order.id (map requested_line req.items) tx w') ex
              (insert_items-InsertsItems order.id (map requested_line req.items) tx w' s.2) in
          (h.0 ∙ s.0, h.1.0 ∙ s.1.0))

  -- Where no answer of the database is lost, a message that is processed has added its order, under
  -- its own identifier, confirmed, with the 32-bit sum of its items and a row for each; one that fails
  -- has added nothing.
  pub process_order-Processes : NoLost w.script → Processes req w (process_order req w)
  unfolding process_order
  process_order-Processes n =
      begin_tx_cases (Processes req w) raw w w (refl, (refl, refl, refl), n)
        (λ tx. or_fail raw (in_tx (create_order_with_id (worker_params req)) tx) >>= λ a.
          or_fail raw (insert_items a.0.id (map requested_line req.items) a.1) >>= λ b.
          or_fail raw (commit_tx b.1) >> pure tt)
        (λ w1 s.
          in_tx_cases (Processes req w) raw w w1 s (create_order_with_id (worker_params req)) w.db
            (λ a. or_fail raw (insert_items a.0.id (map requested_line req.items) a.1) >>= λ b.
              or_fail raw (commit_tx b.1) >> pure tt)
            items_written (λ e w2 t. (t.0, t.1.0)))
        (λ e w1 t. (t.0, t.1.0))
