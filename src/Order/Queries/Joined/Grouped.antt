-- ===== src/Order/Queries/Joined/Grouped.antt =====
-- The LEFT JOIN reads what one query for the orders and one for the items of each would read.
use mathlib.Core.Path.{◌∙◌, subst}
use flash_deals.Base.{
  ℕ, zero, suc, ◌≤◌, ◌<◌, pos, ◌≡◌, refl, sym, ap, true, some, none, String, List, [], ◌∷◌, ◌++◌,
  map, Uuid, ok, length, take, length-order_by_desc, filter_by, order_by_desc, page, sort_by,
  insert_by, Bool-cases, leb, inl, inr, flat_map, HaveKeys, InOrder, Leads, AllAfter, AllBehind,
  sort_by-flat_map, arith,
}
use flash_deals.Order.State.{OrdersOrder, OrdersOrderItem, OrderDb}
use flash_deals.Order.Queries.{own_items, made_before, items_of}
use flash_deals.Order.Queries.Lists.{
  created, is_of, is_of_with, is_order_status, or_bad_page, list_orders_by_user_id,
  list_orders_by_user_id_and_status,
}
use flash_deals.Order.Queries.Joined.{
  ListOrdersWithItemsByUserIdRow, joined, left_join, rows_of_order, comes_before,
  list_orders_with_items_by_user_id, list_orders_with_items_by_user_id_and_status,
}

-- The items are in the order in which they were made.
abbrev pub Ascending : List OrdersOrderItem → Type 0
Ascending [] = Unit {0}
Ascending (i ∷ []) = Unit {0}
Ascending (i ∷ j ∷ is) = (i.created_at ≤ j.created_at) × Ascending (j ∷ is)

-- The rows of the query for the items are in the order of their times.
Ascending-insert_by :
    (i : OrdersOrderItem) (is : List OrdersOrderItem)
    → Ascending is
    → Ascending (insert_by made_before i is)
Ascending-insert_by i [] h = tt
Ascending-insert_by i (j ∷ []) h = elim (Bool-cases (leb i.created_at j.created_at)) [
  | inl e ↦ rw e (ground (arith, e), tt)
  | inr e ↦ rw e (ground (arith, e), tt)
]
Ascending-insert_by i (j ∷ k ∷ is) (h, hs) = elim (Bool-cases (leb i.created_at j.created_at)) [
  | inl e ↦ rw e (ground (arith, e), (h, hs))
  | inr e ↦ rw e (elim (Bool-cases (leb i.created_at k.created_at)) [
    | inl f ↦ rw f (ground (arith, e), (ground (arith, f), hs))
    | inr f ↦ rw f (h, rw f at (Ascending-insert_by i (k ∷ is) hs))
  ])
]

Ascending-sort_by : (is : List OrdersOrderItem) → Ascending (sort_by made_before is)
Ascending-sort_by [] = tt
Ascending-sort_by (i ∷ is) = Ascending-insert_by i (sort_by made_before is) (Ascending-sort_by is)

items-InOrder :
    (o : OrdersOrder) (i : OrdersOrderItem) (is : List OrdersOrderItem)
    → Ascending (i ∷ is)
    → InOrder comes_before (joined o (some i) ∷ map (λ j. joined o (some j)) is)
items-InOrder o i [] h = tt
items-InOrder o i (j ∷ is) h = (ground arith, items-InOrder o j is h.1)

left_join-InOrder :
    (o : OrdersOrder) (is : List OrdersOrderItem)
    → Ascending is
    → InOrder comes_before (left_join o is)
left_join-InOrder o [] h = tt
left_join-InOrder o (i ∷ is) h = items-InOrder o i is h

-- Every row of an order shows its time.
abbrev AllAt : ℕ → List ListOrdersWithItemsByUserIdRow → Type 0
AllAt n [] = Unit {0}
AllAt n (r ∷ rs) = (r.o_created_at ≡ n) × AllAt n rs

AllAt-left_join :
    (o : OrdersOrder) (is : List OrdersOrderItem) → AllAt o.created_at (left_join o is)
AllAt-left_join o [] = (refl, tt)
AllAt-left_join o (i ∷ is) = (refl, more is)
  where
    more : (js : List OrdersOrderItem) → AllAt o.created_at (map (λ j. joined o (some j)) js)
    more [] = tt
    more (j ∷ js) = (refl, more js)

Leads-later :
    (m n : ℕ) (rs : List ListOrdersWithItemsByUserIdRow) (s : ListOrdersWithItemsByUserIdRow)
    (ss : List ListOrdersWithItemsByUserIdRow)
    → n < m
    → AllAt m rs
    → s.o_created_at ≡ n
    → Leads comes_before rs (s ∷ ss)
Leads-later m n [] s ss h a e = tt
Leads-later m n (r ∷ rs) s ss h (at, a) e = (ground (arith, at, e), Leads-later m n rs s ss h a e)

AllAfter-later :
    (m n : ℕ) (r : ListOrdersWithItemsByUserIdRow) (ss : List ListOrdersWithItemsByUserIdRow)
    → m < n
    → r.o_created_at ≡ m
    → AllAt n ss
    → AllAfter comes_before r ss
AllAfter-later m n r [] h e a = tt
AllAfter-later m n r (s ∷ ss) h e (at, a) = (ground (arith, at, e), AllAfter-later m n r ss h e a)

AllBehind-later :
    (m n : ℕ) (rs ss : List ListOrdersWithItemsByUserIdRow)
    → m < n
    → AllAt m rs
    → AllAt n ss
    → AllBehind comes_before rs ss
AllBehind-later m n [] ss h a b = tt
AllBehind-later m n (r ∷ rs) ss h (at, a) b =
    (AllAfter-later m n r ss h at b, AllBehind-later m n rs ss h a b)

module _ (db : OrderDb) where
  ascending : (id : Uuid) → Ascending (items_of id db.order_items)
  ascending id = Ascending-sort_by (own_items id db.order_items)

  first_row :
      (b c : OrdersOrder) (ds : List OrdersOrder)
      → created c < created b
      → Leads comes_before
          (rows_of_order db b)
          (rows_of_order db c ++ flat_map (rows_of_order db) ds)
  first_row b c ds h = go (items_of c.id db.order_items) (flat_map (rows_of_order db) ds)
    where
      go :
          (is : List OrdersOrderItem) (rest : List ListOrdersWithItemsByUserIdRow)
          → Leads comes_before (rows_of_order db b) (left_join c is ++ rest)
      go [] rest =
          Leads-later b.created_at c.created_at (rows_of_order db b) (joined c none) rest h
            (AllAt-left_join b (items_of b.id db.order_items)) refl
      go (i ∷ is) rest =
          Leads-later b.created_at c.created_at (rows_of_order db b) (joined c (some i))
            (map (λ j. joined c (some j)) is ++ rest) h
            (AllAt-left_join b (items_of b.id db.order_items)) refl

  -- The join of orders made at different times, in its order, is the orders in theirs with the rows of
  -- each.
  grouped :
      (os : List OrdersOrder)
      → HaveKeys created os
      → sort_by comes_before (flat_map (rows_of_order db) os)
        ≡ flat_map (rows_of_order db) (order_by_desc created os)
  grouped os =
      sort_by-flat_map comes_before created (rows_of_order db)
        (λ o. left_join-InOrder o (items_of o.id db.order_items) (ascending o.id)) first_row
        (λ b c h.
          AllBehind-later b.created_at c.created_at (rows_of_order db b) (rows_of_order db c) h
            (AllAt-left_join b (items_of b.id db.order_items))
            (AllAt-left_join c (items_of c.id db.order_items)))
        os

  take_all : {A : Type 0} (n : ℕ) (xs : List A) → length xs ≤ n → take n xs ≡ xs
  take_all zero [] h = refl
  take_all zero (x ∷ xs) h = absurd (omega arith)
  take_all (suc n) [] h = refl
  take_all (suc n) (x ∷ xs) h = ap (λ l. x ∷ l) (take_all n xs (omega arith))

  -- The page of a join, from the page of its orders.
  joined_page :
      (mine orders : List OrdersOrder) (m n : ℕ)
      → HaveKeys created mine
      → length mine ≤ m
      → or_bad_page (page (pos m) (pos 0) (order_by_desc created mine)) ≡ ok orders
      → length (flat_map (rows_of_order db) orders) ≤ n
      → or_bad_page (page (pos n) (pos 0) (sort_by comes_before (flat_map (rows_of_order db) mine)))
        ≡ ok (flat_map (rows_of_order db) orders)
  joined_page mine orders m n keys all listed room =
      let same : order_by_desc created mine ≡ orders =
        sym (
          take_all m (order_by_desc created mine)
            (subst (λ k. k ≤ m) (sym (length-order_by_desc created mine)) all))
        ∙ ground (arith, listed) in
      ap (λ l. or_bad_page (page (pos n) (pos 0) l))
        (grouped mine keys ∙ ap (flat_map (rows_of_order db)) same)
      ∙ ap ok (take_all n (flat_map (rows_of_order db) orders) room)

  -- Where a user's orders were made at different times: a page of the join that has all rows is what the
  -- query for the orders, with a page that has all of them, and the query for the items of each would
  -- give. An order with no items has one row, with NULLs.
  pub list_orders_with_items_lem :
      (user_id : Uuid) (m n : ℕ) (orders : List OrdersOrder)
      → HaveKeys created (filter_by (is_of user_id) db.orders)
      → length (filter_by (is_of user_id) db.orders) ≤ m
      → (list_orders_by_user_id (record { user_id = user_id; limit = pos m; offset = pos 0 }) db).0
        ≡ ok orders
      → length (flat_map (rows_of_order db) orders) ≤ n
      → (list_orders_with_items_by_user_id
          (record { user_id = user_id; limit = pos n; offset = pos 0 })
          db).0
        ≡ ok (flat_map (rows_of_order db) orders)
  unfolding list_orders_by_user_id list_orders_with_items_by_user_id
  list_orders_with_items_lem user_id m n orders =
      joined_page (filter_by (is_of user_id) db.orders) orders m n

  -- The same with a status.
  pub list_orders_with_items_status_lem :
      (user_id : Uuid) (status : String) (m n : ℕ) (orders : List OrdersOrder)
      → is_order_status status ≡ true
      → HaveKeys created (filter_by (is_of_with user_id status) db.orders)
      → length (filter_by (is_of_with user_id status) db.orders) ≤ m
      → (list_orders_by_user_id_and_status
          (record { user_id = user_id; status = status; limit = pos m; offset = pos 0 })
          db).0
        ≡ ok orders
      → length (flat_map (rows_of_order db) orders) ≤ n
      → (list_orders_with_items_by_user_id_and_status
          (record { user_id = user_id; status = status; limit = pos n; offset = pos 0 })
          db).0
        ≡ ok (flat_map (rows_of_order db) orders)
  unfolding list_orders_by_user_id_and_status list_orders_with_items_by_user_id_and_status
  list_orders_with_items_status_lem user_id status m n orders known keys all listed room =
      rw known (
        joined_page (filter_by (is_of_with user_id status) db.orders) orders m n keys all
          (sym (rw known) ∙ listed) room)
