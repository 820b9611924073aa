-- ===== src/Order/Service/Status/Read.antt =====
-- `GetOrder`: only the user's own order is shown, and nothing changes.
use mathlib.Core.Path.{◌∙◌}
use flash_deals.Base.{
  ◌==◌, ==→eq, Bool, true, false, ◌≡◌, refl, sym, ap, none, some, Option-cases, inl, inr, Uuid,
  Result, ok, err, Exec, pure, raise, ◌>>=◌, bind_cases, arith, if◌then◌else◌,
}
use flash_deals.Order.State.{OrderWorld, OrderDb, OrdersOrder, Error, on_db}
use flash_deals.Order.Queries
use flash_deals.Order.Queries.{find_order, items_of}
use flash_deals.Order.Service.{OrderResponse, Failure, raw, to_order_response}
use flash_deals.Order.Service.Transaction.{or_fail, or_fail-ok, or_fail-err}
use flash_deals.Order.Service.Status.{get_order, missing, forbidden}

-- A step that reads.
abbrev pub Still : {R : Type 0} → OrderWorld R → OrderWorld R → Type 0
Still w w' = (w'.db ≡ w.db) × (w'.remote ≡ w.remote) × (w'.queue ≡ w.queue)

-- What `get_order` has done, by how it ended.
abbrev pub Gets :
    {R : Type 0} → Uuid → Uuid → OrderWorld R → Result Failure OrderResponse × OrderWorld R → Type 0
Gets order_id user_id w (ok response, w') =
    (o : OrdersOrder) × (find_order order_id w.db ≡ some o)
    × (o.user_id ≡ user_id)
    × (response ≡ to_order_response o (items_of o.id w.db.order_items) none)
    × Still w w'
Gets order_id user_id w (err e, w') = Still w w'

get_order_by_id_lem :
    (id : Uuid) (db : OrderDb) (o : OrdersOrder)
    → (Queries.get_order_by_id id db).0 ≡ ok o
    → find_order id db ≡ some o
unfolding Queries.get_order_by_id
get_order_by_id_lem id db o h = elim (Option-cases (find_order id db)) [
  | inl e ↦ absurd (ground (arith, e, h))
  | inr (p, e) ↦ ground (arith, e, h)
]

module _ {R : Type 0} where
  -- A query that changes no row.
  pub on_db-Still :
      {A : Type 0} (q : Exec OrderDb Error A) (w w' : OrderWorld R) (r : Result Error A)
      → (q w.db).1 ≡ w.db
      → on_db q w ≡ (r, w')
      → Still w w'
  on_db-Still q w w' r h e = ground (arith, h, e)

  pub on_db-ok :
      {A : Type 0} (q : Exec OrderDb Error A) (w w' : OrderWorld R) (a : A)
      → on_db q w ≡ (ok a, w')
      → (q w.db).0 ≡ ok a
  on_db-ok q w w' a e = ground (arith, e)

  -- Whatever the calls of the database do, `GetOrder` changes nothing, and what it shows is an order
  -- of the user who asks, with the items of that order.
  pub get_order-Gets :
      (order_id user_id : Uuid) (w : OrderWorld R)
      → Gets order_id user_id w (get_order order_id user_id w)
  unfolding get_order Queries.get_order_by_id Queries.get_order_items_by_order_id
  get_order-Gets order_id user_id w =
      bind_cases (Gets order_id user_id w) (or_fail missing (on_db find)) shown w
        (λ o w1 e.
          let ran = or_fail-ok missing (on_db find) w w1 o e in
          let s = on_db-Still find w w1 (ok o) refl ran in
          own o w1 s (get_order_by_id_lem order_id w.db o (on_db-ok find w w1 o ran))
            (o.user_id == user_id) refl)
        (λ x w1 e.
          let (y, ex) = or_fail-err missing (on_db find) w w1 x e in
          on_db-Still find w w1 (err y) refl ex)
    where
      find : Exec OrderDb Error OrdersOrder
      find = Queries.get_order_by_id order_id

      rest_of : OrdersOrder → Exec (OrderWorld R) Failure OrderResponse
      rest_of o = or_fail raw (on_db (Queries.get_order_items_by_order_id o.id)) >>= λ items.
          pure (to_order_response o items none)

      shown : OrdersOrder → Exec (OrderWorld R) Failure OrderResponse
      shown o = if o.user_id == user_id then rest_of o else raise forbidden

      own :
          (o : OrdersOrder) (w1 : OrderWorld R)
          → Still w w1
          → find_order order_id w.db ≡ some o
          → (t : Bool) → (o.user_id == user_id) ≡ t
          → Gets order_id user_id w ((if t then rest_of o else raise forbidden) w1)
      own o w1 s found false e = s
      own o w1 (d, r, q) found true e =
          bind_cases (Gets order_id user_id w)
            (or_fail raw (on_db (Queries.get_order_items_by_order_id o.id)))
            (λ items. pure (to_order_response o items none)) w1
            (λ items w2 e2.
              let ran =
                or_fail-ok raw (on_db (Queries.get_order_items_by_order_id o.id)) w1 w2 items e2 in
              let (d2, r2, q2) =
                on_db-Still (Queries.get_order_items_by_order_id o.id) w1 w2 _ refl ran in
              (
                o,
                found,
                ==→eq o.user_id user_id e,
                ap (λ l. to_order_response o l none)
                    (sym (
                        ground (
                          arith,
                          on_db-ok (Queries.get_order_items_by_order_id o.id) w1 w2 items ran,
                        ))
                      ∙ ap (λ (db : OrderDb). items_of o.id db.order_items) d),
                (d2 ∙ d, r2 ∙ r, q2 ∙ q),
              ))
            (λ x w2 e2.
              let (y, ex) =
                or_fail-err raw (on_db (Queries.get_order_items_by_order_id o.id)) w1 w2 x e2 in
              let (d2, r2, q2) =
                on_db-Still (Queries.get_order_items_by_order_id o.id) w1 w2 _ refl ex in
              (d2 ∙ d, r2 ∙ r, q2 ∙ q))
