-- ===== src/Order/Service/Undo.antt =====
-- `CreateOrder` and then `CancelOrder` of the order: services/order/go/internal/service/order.go.
pub mod Calm
use mathlib.Core.Path.{◌∙◌, subst}
use mathlib.Core.List.{append-nil}
use flash_deals.Base.{
  ℕ, sort_by, insert_by, ◌+◌, ◌==◌, ==_self, ℤ, pos, ◌+ℤ◌, ◌≤ℤ◌, max_int32, ◌≡◌, refl, sym, ap,
  true, none, some, Option, String, List, [], ◌∷◌, ◌++◌, map, Uuid, UuidText, Result, ok, err,
  find_by, update_by, arith, Bool-cases, inl, inr, NoLost,
}
use flash_deals.Rpc.{ProductService}
use flash_deals.Rpc.Stock.{StockView, StockLaws}
use flash_deals.Order.State.{
  OrderWorld, OrderDb, OrdersOrder, OrdersOrderItem, cancelled, status_text,
}
use flash_deals.Order.Queries.{
  own_items, made_before, order_id, find_order, items_of, cancelled_row,
}
use flash_deals.Order.Client.Stock.{IsReady}
use flash_deals.Order.Service.{
  OrderItemRequest, ShippingAddress, OrderResponse, Failure, to_order_response,
}
use flash_deals.Order.Service.Pricing.{OrderItemData}
use flash_deals.Order.Service.Pricing.Total.{request_of}
use flash_deals.Order.Service.Stock.{DecreasedItem, decreased, restore_stock}
use flash_deals.Order.Service.Stock.Restore.{demand, AllKnown, AllQuantities}
use flash_deals.Order.Service.Stock.Decrease.{AllOrdered}
use flash_deals.Order.Service.Create.{create_order}
use flash_deals.Order.Service.Create.Insert.{AreLines, AtTime, line_of}
use flash_deals.Order.Service.Create.Atomic.{Places, create_order-Places}
use flash_deals.Order.Service.Status.{to_restore, is_cancellable, cancel_rows, cancel_order}
use flash_deals.Order.Service.Status.Checks.{with_order}
use flash_deals.Order.Service.Status.Cancel.{Cancels, cancel_order-Cancels}
use flash_deals.Order.Service.Undo.Calm.{NoFailure, create_order_calm, cancel_order_calm}
use flash_deals.Order.Lifecycle.{stored}
use flash_deals.Order.Lifecycle.Valid.{IsValid, Balanced, own_items-append, own_items-own}

-- What the cancellation of a new order has done, by how it ended: it does not fail.
abbrev pub Undoes :
    {R : Type 0}
    → StockView R
    → Option String
    → OrderResponse
    → OrderWorld R
    → Result Failure OrderResponse × OrderWorld R
    → Type 0
Undoes v reason placed w (ok response, w') =
    ((j : Uuid) → v.stock w'.remote j ≡ v.stock w.remote j)
    × (response.id ≡ placed.id)
    × (response.items ≡ placed.items)
    × (response.total_amount ≡ placed.total_amount)
    × (response.status ≡ status_text cancelled)
    × (response.cancel_reason ≡ reason)
    × ((o : OrdersOrder) × (w'.db.orders ≡ o ∷ w.db.orders)
        × (o.id ≡ placed.id)
        × (o.status ≡ cancelled))
Undoes v reason placed w (err e, w') = ⊥

-- What the rows of an order give back is what its items asked for.
to_restore_lem :
    (id : Uuid) (ds : List OrderItemData) (rows : List OrdersOrderItem)
    → AreLines id ds rows
    → map to_restore rows ≡ map decreased (map request_of ds)
to_restore_lem id [] [] h = refl
to_restore_lem id [] (row ∷ rows) h = absurd h
to_restore_lem id (d ∷ ds) [] h = absurd h
to_restore_lem id (d ∷ ds) (row ∷ rows) (line, _, h) =
    let others = to_restore_lem id ds rows h in
    ap (λ e. decreased (request_of e) ∷ map to_restore rows) line
    ∙ ap (λ l. decreased (request_of d) ∷ l) others

-- Rows of one time are in the order of their times.
AtTime-sort_by :
    (t : ℕ) (rows : List OrdersOrderItem) → AtTime t rows → sort_by made_before rows ≡ rows
AtTime-sort_by t [] h = refl
AtTime-sort_by t (i ∷ []) h = refl
AtTime-sort_by t (i ∷ j ∷ is) (at, h) =
    ap (insert_by made_before i) (AtTime-sort_by t (j ∷ is) h) ∙ ground (arith, at, h.0)

-- An update of a row that is not there.
update_of_absent :
    (id : Uuid) (f : OrdersOrder → OrdersOrder) (os : List OrdersOrder)
    → find_by order_id id os ≡ none
    → update_by order_id id f os ≡ os
update_of_absent id f [] h = refl
update_of_absent id f (o ∷ os) h = elim (Bool-cases (o.id == id)) [
  | inl e ↦ absurd (ground (arith, e, h))
  | inr e ↦ ground (arith, e, h, update_of_absent id f os)
]

module _ {R : Type 0} (ids : UuidText) (svc : ProductService R) (laws : StockLaws ids svc)
    (user_id : Uuid) (items : List OrderItemRequest) (shipping : Option ShippingAddress)
    (reason : Option String) (w : OrderWorld R) where
  open laws use {view}

  -- The cancellation, of the order that `CreateOrder` has placed.
  placed-Undoes :
      (response : OrderResponse) (w1 : OrderWorld R)
      → IsReady view w
      → IsValid (stored w)
      → NoFailure w1
      → Places view user_id items shipping w (ok response, w1)
      → Undoes view reason response w (cancel_order ids svc response.id user_id reason w1)
  unfolding to_order_response
  placed-Undoes response w1 ready valid calm ((at, ready1, known, quantities), placed) =
      subst (λ id. Undoes view reason response w (cancel_order ids svc id user_id reason w1))
        (sym (ap (λ (r : OrderResponse). r.id) placed.answered))
        (subst (Undoes view reason response w) (sym answer.1) undone)
    where
      order : OrdersOrder
      order = placed.order

      new : find_order order.id w.db ≡ none
      new = valid.fresh order.id (omega (arith, placed.is_order.0))

      found : find_order order.id w1.db ≡ some order
      found =
          ap (λ (l : List OrdersOrder). find_by order_id order.id l) placed.added_order
          ∙ rw (==_self order.id)

      own_rows : own_items order.id w1.db.order_items ≡ placed.rows
      own_rows =
          ap (own_items order.id) placed.added_items
          ∙ own_items-append order.id w.db.order_items placed.rows
          ∙ ap (λ l. l ++ own_items order.id placed.rows)
              (subst (λ o. Balanced o (own_items order.id w.db.order_items)) new
                (valid.balanced order.id))
          ∙ (own_items-own order.id placed.lines placed.rows placed.are_lines).0

      its_rows : items_of order.id w1.db.order_items ≡ placed.rows
      its_rows =
          ap (sort_by made_before) own_rows
          ∙ AtTime-sort_by placed.times.0 placed.rows placed.times.1

      given : map to_restore (items_of order.id w1.db.order_items) ≡ map decreased items
      given =
          ap (map to_restore) its_rows
          ∙ to_restore_lem order.id placed.lines placed.rows placed.are_lines
          ∙ ap (map decreased) placed.for_items

      answer :
          (w2 : OrderWorld R) × (cancel_order ids svc order.id user_id reason w1 ≡ (
            ok (
                to_order_response
                  (cancelled_row w1.db.clock reason order)
                  (items_of order.id w1.db.order_items)
                  none),
            w2,
          ))
      answer =
          cancel_order_calm ids svc order.id user_id reason w1 order calm found placed.is_order.1
            (ap is_cancellable placed.is_order.3)

      done :
          Cancels view order.id user_id reason w1 (cancel_order ids svc order.id user_id reason w1)
      done =
          cancel_order-Cancels ids svc laws order.id user_id reason w1 ready1
            (subst NoLost (sym calm) tt) (subst (AllKnown view w1.remote) (sym given) known)
            (subst AllQuantities (sym given) quantities)
            (λ j.
              subst (λ ds. view.stock w1.remote j +ℤ demand ds j ≤ℤ max_int32) (sym given)
                (subst (λ n. n ≤ℤ max_int32) (sym (at j)) (laws.bounded w.remote j ready.valid).1))

      after : Cancels view order.id user_id reason w1 (
        ok (
            to_order_response
              (cancelled_row w1.db.clock reason order)
              (items_of order.id w1.db.order_items)
              none),
        answer.0,
      )
      after = subst (Cancels view order.id user_id reason w1) answer.1 done

      row : OrdersOrder → OrdersOrder
      row = cancelled_row w1.db.clock reason

      tables : answer.0.db.orders ≡ row order ∷ w.db.orders
      tables =
          ap (λ (db : OrderDb). db.orders) after.4
          ∙ ap (update_by order_id order.id row) placed.added_order
          ∙ rw (==_self order.id)
              (ap (λ l. row order ∷ l) (update_of_absent order.id row w.db.orders new))

      undone : Undoes view reason response w (
        ok (
            to_order_response
              (cancelled_row w1.db.clock reason order)
              (items_of order.id w1.db.order_items)
              none),
        answer.0,
      )
      undone = (
        λ j. after.6 j ∙ ap (λ ds. view.stock w1.remote j +ℤ demand ds j) given ∙ at j,
        ap (λ (r : OrderResponse). r.id) (sym placed.answered),
        ap (λ (l : List OrdersOrderItem). (to_order_response order l none).items) its_rows
            ∙ ap (λ (r : OrderResponse). r.items) (sym placed.answered),
        ap (λ (r : OrderResponse). r.total_amount) (sym placed.answered),
        refl,
        refl,
        (row order, tables, ap (λ (r : OrderResponse). r.id) (sym placed.answered), refl),
      )

  -- What holds of an answer of `CreateOrder`, by what `CancelOrder` makes of it.
  abbrev pub CanUndo : Result Failure OrderResponse × OrderWorld R → Type 0
  CanUndo (ok response, w1) =
      Undoes view reason response w (cancel_order ids svc response.id user_id reason w1)
  CanUndo (err e, w1) =
      ((j : Uuid) → view.stock w1.remote j ≡ view.stock w.remote j) × (w1.db ≡ w.db)

  -- Over a product service that keeps the stock laws, in a state where they hold (it takes stock or
  -- changes nothing, and never fails to give stock back), over a reliable connection, where no call of the
  -- database fails, from valid tables, and for positive quantities: if `CreateOrder` answers with an
  -- order, a `CancelOrder` of its user that comes next does not fail. It leaves every product with the
  -- stock that it had before the order, answers with the identifier, the items and the total of the order,
  -- cancelled for the reason given, and the orders are those of before and this one, cancelled. If
  -- `CreateOrder` answers with an error, stocks and rows are those of before already.
  pub create_order-cancel_order :
      IsReady view w
      → IsValid (stored w)
      → NoFailure w
      → AllOrdered items
      → CanUndo (create_order ids svc user_id items shipping w)
  create_order-cancel_order ready valid calm q =
      go (create_order ids svc user_id items shipping w)
        (create_order_calm ids svc user_id items shipping w calm)
        (create_order-Places ids svc laws user_id items shipping w ready
          (subst NoLost (sym calm) tt) q)
    where
      go :
          (p : Result Failure OrderResponse × OrderWorld R)
          → NoFailure p.1
          → Places view user_id items shipping w p
          → CanUndo p
      go (ok response, w1) calm1 done = placed-Undoes response w1 ready valid calm1 done
      go (err e, w1) calm1 undone = undone
