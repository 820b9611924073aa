-- ===== src/Order/Service/Lists/Shows.antt =====
-- `ListOrders` whatever the database does.
use mathlib.Core.Path.{subst}
use flash_deals.Base.{
  ℤ, pos, sub32, mul32, String, Bool, true, ◌≡◌, refl, ◌∙◌, Option, none, some, List, [], ◌∷◌, Uuid,
  Result, ok, err, Exec, pure, ◌>>=◌, bind_cases, inl, inr, arith, Bool-cases, ==→eq, page,
  filter_by, order_by_desc, AllOf, AllOf-filter_by, AllOf-order_by_desc, OfPage, OfPage-page,
}
use flash_deals.Order.State.{OrderWorld, OrderDb, OrdersOrder, Error, on_db}
use flash_deals.Order.Queries
use flash_deals.Order.Queries.Lists.{
  is_of, is_of_with, is_order_status, or_bad_page, created, count_orders_by_user_id,
  count_orders_by_user_id_and_status, list_orders_by_user_id, list_orders_by_user_id_and_status,
}
use flash_deals.Order.Service.Transaction.{or_fail, or_fail-ok, or_fail-err}
use flash_deals.Order.Service.{OrderResponse, Failure, raw, to_order_response}
use flash_deals.Order.Service.Status.{or_nil}
use flash_deals.Order.Service.Status.Read.{Still, on_db-Still, on_db-ok}
use flash_deals.Order.Service.Lists.{count_query, list_query, with_items, list_orders}

abbrev IsOwn : Uuid → OrdersOrder → Type 0
IsOwn user_id o = o.user_id ≡ user_id

-- What `list_orders` has done, by how it ended.
abbrev pub Shows :
    {R : Type 0}
    → Uuid
    → OrderWorld R
    → Result Failure (List OrderResponse × ℤ) × OrderWorld R
    → Type 0
Shows user_id w (ok (results, total), w') =
    AllOf (λ (r : OrderResponse). r.user_id ≡ user_id) results × Still w w'
Shows user_id w (err e, w') = Still w w'

-- The same of the loop over the rows.
abbrev ShowsRows :
    {R : Type 0} → Uuid → OrderWorld R → Result Failure (List OrderResponse) × OrderWorld R → Type 0
ShowsRows user_id w (ok results, w') =
    AllOf (λ (r : OrderResponse). r.user_id ≡ user_id) results × Still w w'
ShowsRows user_id w (err e, w') = Still w w'

IsOwn-page :
    (user_id : Uuid) (limit offset : ℤ) (p : OrdersOrder → Bool) (orders rows : List OrdersOrder)
    → ((o : OrdersOrder) → p o ≡ true → IsOwn user_id o)
    → or_bad_page (page limit offset (order_by_desc created (filter_by p orders))) ≡ ok rows
    → AllOf (IsOwn user_id) rows
IsOwn-page user_id limit offset p orders rows h e =
    go (page limit offset (order_by_desc created (filter_by p orders)))
      (OfPage-page (IsOwn user_id) limit offset (order_by_desc created (filter_by p orders)) (
        AllOf-order_by_desc (IsOwn user_id) created (filter_by p orders)
          (AllOf-filter_by (IsOwn user_id) p orders h)))
      e
  where
    go :
        (o : Option (List OrdersOrder))
        → OfPage (IsOwn user_id) o
        → or_bad_page o ≡ ok rows
        → AllOf (IsOwn user_id) rows
    go none k f = absurd (ground (arith, f))
    go (some found) k f = subst (AllOf (IsOwn user_id)) (ground (arith, f)) k

list_query-IsOwn :
    (user_id : Uuid) (limit offset : ℤ) (status : Option String) (db : OrderDb)
    (rows : List OrdersOrder)
    → (list_query user_id limit offset status db).0 ≡ ok rows
    → AllOf (IsOwn user_id) rows
unfolding list_query list_orders_by_user_id list_orders_by_user_id_and_status
list_query-IsOwn user_id limit offset none db rows e =
    IsOwn-page user_id limit offset (is_of user_id) db.orders rows
      (λ o h. ==→eq o.user_id user_id h) e
list_query-IsOwn user_id limit offset (some status) db rows e =
    IsOwn-page user_id limit offset (is_of_with user_id status) db.orders rows
      (λ o h. ==→eq o.user_id user_id (ground (arith, h)))
      (elim (Bool-cases (is_order_status status)) [
        | inl good ↦ ground (arith, e, good)
        | inr bad ↦ absurd (ground (arith, e, bad))
      ])

-- A query that changes no row, whatever becomes of the call.
Still-trans : {R : Type 0} (w1 w2 w3 : OrderWorld R) → Still w1 w2 → Still w2 w3 → Still w1 w3
Still-trans w1 w2 w3 (d, r, q) (d', r', q') = (d' ∙ d, r' ∙ r, q' ∙ q)

or_nil-Still :
    {R A : Type 0} (q : Exec OrderDb Error (List A)) (w w' : OrderWorld R)
    (r : Result Failure (List A))
    → (q w.db).1 ≡ w.db
    → or_nil (on_db q) w ≡ (r, w')
    → Still w w'
or_nil-Still q w w' r h e = ground (arith, h, e)

query_kept :
    (user_id : Uuid) (limit offset : ℤ) (status : Option String) (db : OrderDb)
    → (list_query user_id limit offset status db).1 ≡ db
unfolding list_query list_orders_by_user_id list_orders_by_user_id_and_status
query_kept user_id limit offset none db = refl
query_kept user_id limit offset (some status) db = ground arith

count_kept :
    (user_id : Uuid) (status : Option String) (db : OrderDb)
    → (count_query user_id status db).1 ≡ db
unfolding count_query count_orders_by_user_id count_orders_by_user_id_and_status
count_kept user_id none db = refl
count_kept user_id (some status) db = ground arith

module _ {R : Type 0} (user_id : Uuid) where
  with_items-ShowsRows :
      (orders : List OrdersOrder) (w : OrderWorld R)
      → AllOf (IsOwn user_id) orders
      → ShowsRows user_id w (with_items orders w)
  unfolding with_items Queries.get_order_items_by_order_id to_order_response
  with_items-ShowsRows [] w h = (tt, (refl, refl, refl))
  with_items-ShowsRows (o ∷ os) w (h, hs) =
      bind_cases (ShowsRows user_id w) (or_nil (on_db (Queries.get_order_items_by_order_id o.id)))
        (λ items. with_items os >>= λ results. pure (to_order_response o items none ∷ results)) w
        (λ items w1 e.
          bind_cases (ShowsRows user_id w) (with_items os)
            (λ results. pure (to_order_response o items none ∷ results)) w1
            (λ results w2 e2.
              let (own, still) = subst (ShowsRows user_id w1) e2 (with_items-ShowsRows os w1 hs) in
              (
                (h, own),
                Still-trans w w1 w2
                    (or_nil-Still (Queries.get_order_items_by_order_id o.id) w w1 _ refl e) still,
              ))
            (λ x w2 e2.
              Still-trans w w1 w2
                (or_nil-Still (Queries.get_order_items_by_order_id o.id) w w1 _ refl e)
                (subst (ShowsRows user_id w1) e2 (with_items-ShowsRows os w1 hs))))
        (λ x w1 e. or_nil-Still (Queries.get_order_items_by_order_id o.id) w w1 _ refl e)

  -- Whatever the calls of the database do, `ListOrders` changes nothing, and every order it shows is one
  -- of the user who asks.
  pub list_orders-Shows :
      (number size : ℤ) (status : Option String) (w : OrderWorld R)
      → Shows user_id w (list_orders user_id number size status w)
  unfolding list_orders
  list_orders-Shows number size status w =
      bind_cases (Shows user_id w) (or_fail raw (on_db (count_query user_id status)))
        (λ total. query >>= λ orders. last total orders) w
        (λ total w1 e. listed total w1 (
          on_db-Still (count_query user_id status) w w1 (ok total) (count_kept user_id status w.db)
            (or_fail-ok raw (on_db (count_query user_id status)) w w1 total e)))
        (λ x w1 e.
          let (y, ex) = or_fail-err raw (on_db (count_query user_id status)) w w1 x e in
          on_db-Still (count_query user_id status) w w1 (err y) (count_kept user_id status w.db) ex)
    where
      offset : ℤ
      offset = mul32 (sub32 number (pos 1)) size

      rows_query : Exec OrderDb Error (List OrdersOrder)
      rows_query = list_query user_id size offset status

      query : Exec (OrderWorld R) Failure (List OrdersOrder)
      query = or_fail raw (on_db rows_query)

      last : ℤ → List OrdersOrder → Exec (OrderWorld R) Failure (List OrderResponse × ℤ)
      last total orders = with_items orders >>= λ results. pure (results, total)

      ended :
          (total : ℤ) (orders : List OrdersOrder) (w1 : OrderWorld R)
          → Still w w1
          → AllOf (IsOwn user_id) orders
          → Shows user_id w (last total orders w1)
      ended total orders w1 still own =
          bind_cases (Shows user_id w) (with_items orders) (λ results. pure (results, total)) w1
            (λ results w2 e.
              let (shown, after) =
                subst (ShowsRows user_id w1) e (with_items-ShowsRows orders w1 own) in
              (shown, Still-trans w w1 w2 still after))
            (λ x w2 e.
              Still-trans w w1 w2 still
                (subst (ShowsRows user_id w1) e (with_items-ShowsRows orders w1 own)))

      listed :
          (total : ℤ) (w1 : OrderWorld R)
          → Still w w1
          → Shows user_id w ((query >>= λ orders. last total orders) w1)
      listed total w1 still =
          bind_cases (Shows user_id w) query (λ orders. last total orders) w1
            (λ orders w2 e.
              let ran = or_fail-ok raw (on_db rows_query) w1 w2 orders e in
              ended total orders w2
                (Still-trans w w1 w2 still (
                  on_db-Still rows_query w1 w2 (ok orders)
                    (query_kept user_id size offset status w1.db) ran))
                (list_query-IsOwn user_id size offset status w1.db orders
                  (on_db-ok rows_query w1 w2 orders ran)))
            (λ x w2 e.
              let (y, ex) = or_fail-err raw (on_db rows_query) w1 w2 x e in
              Still-trans w w1 w2 still (
                on_db-Still rows_query w1 w2 (err y) (query_kept user_id size offset status w1.db)
                  ex))
