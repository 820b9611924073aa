-- ===== src/Order/Service/Lists/Own.antt =====
-- What `ListOrders` answers: a page of the user's own orders.
use flash_deals.Base.{
  ℤ, pos, sub32, mul32, String, ◌≡◌, refl, ◌∙◌, Option, none, some, List, [], ◌∷◌, map, Uuid,
  Result, ok, err, Exec, pure, ◌>>=◌, bind-ok, bind-err, inl, inr, arith, Option-cases,
  if◌then◌else◌, length, page, filter_by, order_by_desc,
}
use flash_deals.Order.State.{OrderWorld, OrderDb, OrdersOrder, Error, on_db}
use flash_deals.Order.Queries
use flash_deals.Order.Queries.{items_of}
use flash_deals.Order.Queries.Lists.{
  is_of, is_of_with, is_order_status, bad_status, bad_page, or_bad_page, created,
  count_orders_by_user_id, count_orders_by_user_id_and_status, list_orders_by_user_id,
  list_orders_by_user_id_and_status,
}
use flash_deals.Order.Service.Transaction.{or_fail}
use flash_deals.Order.Service.{OrderResponse, Failure, raw, to_order_response}
use flash_deals.Order.Service.Lists.{count_query, list_query, with_items, list_orders}

-- The orders that a user asks for, where the status is one.
abbrev pub asked : Uuid → Option String → List OrdersOrder → Option (List OrdersOrder)
asked user_id none orders = some (filter_by (is_of user_id) orders)
asked user_id (some status) orders =
    if is_order_status status then some (filter_by (is_of_with user_id status) orders) else none

-- An order with its items, as it is shown.
abbrev pub shown : OrderDb → OrdersOrder → OrderResponse
shown db o = to_order_response o (items_of o.id db.order_items) none

abbrev pub or_raw : {A : Type 0} → Result Error A → Result Failure A
or_raw (ok a) = ok a
or_raw (err e) = err (raw e)

-- A page of those rows, newest first, and their number.
abbrev pub answered_page :
    OrderDb → ℤ → ℤ → Option (List OrdersOrder) → Result Failure (List OrderResponse × ℤ)
answered_page db limit offset none = err (raw bad_status)
answered_page db limit offset (some rows) = elim (page limit offset (order_by_desc created rows)) [
  | none ↦ err (raw bad_page)
  | some found ↦ ok (map (shown db) found, pos (length rows))
]

module _ {R : Type 0} where
  with_items_lem :
      (w : OrderWorld R) (orders : List OrdersOrder)
      → w.script ≡ []
      → with_items orders w ≡ (ok (map (shown w.db) orders), w)
  unfolding with_items Queries.get_order_items_by_order_id
  with_items_lem w [] calm = refl
  with_items_lem w (o ∷ os) calm = ground (arith, calm, with_items_lem w os calm)

  on_db_calm :
      {A : Type 0} (q : Exec OrderDb Error A) (w : OrderWorld R)
      → w.script ≡ []
      → (q w.db).1 ≡ w.db
      → or_fail raw (on_db q) w ≡ (or_raw (q w.db).0, w)
  on_db_calm q w calm same = ground (arith, calm, same)

  counted :
      (user_id : Uuid) (status : Option String) (w : OrderWorld R)
      → w.script ≡ []
      → or_fail raw (on_db (count_query user_id status)) w ≡ (
        (elim (asked user_id status w.db.orders) [
          | none ↦ err (raw bad_status)
          | some rows ↦ ok (pos (length rows))
        ]),
        w,
      )
  unfolding count_query count_orders_by_user_id count_orders_by_user_id_and_status
  counted user_id none w calm = ground (arith, calm)
  counted user_id (some status) w calm = ground (arith, calm)

  listed :
      (user_id : Uuid) (limit offset : ℤ) (status : Option String) (w : OrderWorld R)
      (rows : List OrdersOrder)
      → w.script ≡ []
      → asked user_id status w.db.orders ≡ some rows
      → or_fail raw (on_db (list_query user_id limit offset status)) w
        ≡ (or_raw (or_bad_page (page limit offset (order_by_desc created rows))), w)
  unfolding list_query list_orders_by_user_id list_orders_by_user_id_and_status
  listed user_id limit offset none w rows calm e = ground (arith, calm, e)
  listed user_id limit offset (some status) w rows calm e = ground (arith, calm, e)

  -- `ListOrders` with no failing call: nothing changes; the answer is the page of the user's orders with
  -- the status that is asked for, newest first, each with its items, and the number of all of them. A
  -- status that is none of the five is an error, and so is a size or an offset below zero.
  pub list_orders_lem :
      (user_id : Uuid) (number size : ℤ) (status : Option String) (w : OrderWorld R)
      → w.script ≡ []
      → list_orders user_id number size status w ≡ (
        answered_page w.db size
            (mul32 (sub32 number (pos 1)) size)
            (asked user_id status w.db.orders),
        w,
      )
  unfolding list_orders
  list_orders_lem user_id number size status w calm =
      elim (Option-cases (asked user_id status w.db.orders)) [
        | inl e ↦
            bind-err (or_fail raw (on_db (count_query user_id status))) (λ total. after total) w w
              (raw bad_status) (counted user_id status w calm ∙ ground (arith, e))
            ∙ ground (arith, e)
        | inr (rows, e) ↦
            bind-ok (or_fail raw (on_db (count_query user_id status))) (λ total. after total) w w
              (pos (length rows)) (counted user_id status w calm ∙ ground (arith, e))
            ∙ paged rows e (page size offset (order_by_desc created rows)) refl
      ]
    where
      offset : ℤ
      offset = mul32 (sub32 number (pos 1)) size

      query : Exec (OrderWorld R) Failure (List OrdersOrder)
      query = or_fail raw (on_db (list_query user_id size offset status))

      last : ℤ → List OrdersOrder → Exec (OrderWorld R) Failure (List OrderResponse × ℤ)
      last total orders = with_items orders >>= λ results. pure (results, total)

      after : ℤ → Exec (OrderWorld R) Failure (List OrderResponse × ℤ)
      after total = query >>= λ orders. last total orders

      paged :
          (rows : List OrdersOrder)
          → asked user_id status w.db.orders ≡ some rows
          → (o : Option (List OrdersOrder)) → page size offset (order_by_desc created rows) ≡ o
          → after (pos (length rows)) w
            ≡ (answered_page w.db size offset (asked user_id status w.db.orders), w)
      paged rows e none f =
          bind-err query (λ orders. last (pos (length rows)) orders) w w (raw bad_page)
            (listed user_id size offset status w rows calm e ∙ ground (arith, f))
          ∙ ground (arith, e, f)
      paged rows e (some found) f =
          bind-ok query (λ orders. last (pos (length rows)) orders) w w found
            (listed user_id size offset status w rows calm e ∙ ground (arith, f))
          ∙ bind-ok (with_items found) (λ results. pure (results, pos (length rows))) w w
              (map (shown w.db) found) (with_items_lem w found calm)
          ∙ ground (arith, e, f)
