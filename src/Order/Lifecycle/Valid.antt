-- ===== src/Order/Lifecycle/Valid.antt =====
-- What always holds of the tables and the queue of the order service.
use mathlib.Core.Path.{◌∙◌, subst}
use mathlib.Core.List.{append-nil}
use flash_deals.Base.{
  ◌≤◌, ◌<◌, ◌==◌, ==→eq, ==_self, pos, ◌≡◌, ◌≢◌, refl, sym, ap, false, Bool-cases, inl, inr, Option,
  none, some, List, [], ◌∷◌, ◌++◌, map, Uuid, find_by, AllOf, if◌then◌else◌, arith,
}
use flash_deals.Order.State.{OrderDb, OrdersOrder, OrdersOrderItem, OrderRequest}
use flash_deals.Order.Queries.{order_id, find_order, own_items}
use flash_deals.Order.Service.Pricing.{OrderItemData}
use flash_deals.Order.Service.Pricing.Total.{AllPriced, add_subtotals}
use flash_deals.Order.Service.Create.Insert.{AreLines, line_of}
use flash_deals.Order.Lifecycle.{Stored, Adds}

-- An order has the sum of its items, each of which has price times quantity; an item has its order.
abbrev pub Balanced : Option OrdersOrder → List OrdersOrderItem → Type 0
Balanced none is = is ≡ []
Balanced (some o) is =
    AllPriced (map line_of is) × (o.total_amount ≡ add_subtotals (pos 0) (map line_of is))

-- No two orders have the same identifier.
abbrev pub AreDistinct : List OrdersOrder → Type 0
AreDistinct [] = Unit {0}
AreDistinct (o ∷ os) = (find_by order_id o.id os ≡ none) × AreDistinct os

-- The orders that wait have identifiers that were drawn, that no order has, and that differ.
abbrev pub Wait : OrderDb → List OrderRequest → Type 0
Wait db [] = Unit {0}
Wait db (m ∷ ms) =
    (m.order_id < db.next_id)
    × (find_order m.order_id db ≡ none)
    × AllOf (λ (k : OrderRequest). k.order_id ≢ m.order_id) ms
    × Wait db ms

pub record IsValid (s : Stored) : Type 0 where
  pub fresh : (id : Uuid) → s.db.next_id ≤ id → find_order id s.db ≡ none
  pub distinct : AreDistinct s.db.orders
  pub balanced : (id : Uuid) → Balanced (find_order id s.db) (own_items id s.db.order_items)
  pub waiting : Wait s.db s.queue

pub own_items-append :
    (id : Uuid) (xs ys : List OrdersOrderItem)
    → own_items id (xs ++ ys) ≡ own_items id xs ++ own_items id ys
own_items-append id [] ys = refl
own_items-append id (x ∷ xs) ys = ground (arith, own_items-append id xs ys)

-- The rows of an order are its items, and those of no other order.
pub own_items-own :
    (id : Uuid) (ds : List OrderItemData) (rows : List OrdersOrderItem)
    → AreLines id ds rows
    → (own_items id rows ≡ rows) × (map line_of rows ≡ ds)
own_items-own id [] [] h = (refl, refl)
own_items-own id [] (row ∷ rows) h = absurd h
own_items-own id (d ∷ ds) [] h = absurd h
own_items-own id (d ∷ ds) (row ∷ rows) (line, own, h) =
    let (own_rows, lines) = own_items-own id ds rows h in
    (ground (arith, own, own_rows), cc (line, lines))

own_items-other :
    (id j : Uuid) (ds : List OrderItemData) (rows : List OrdersOrderItem)
    → AreLines id ds rows
    → (id == j) ≡ false
    → own_items j rows ≡ []
own_items-other id j [] [] h e = refl
own_items-other id j [] (row ∷ rows) h e = absurd h
own_items-other id j (d ∷ ds) [] h e = absurd h
own_items-other id j (d ∷ ds) (row ∷ rows) (line, own, h) e =
    let others = own_items-other id j ds rows h e in ground (arith, own, others)

module _ (order : OrdersOrder) (s s' : Stored) (a : Adds order s s') where
  pub find_order-Adds :
      (id : Uuid)
      → find_order id s'.db ≡ (if order.id == id then some order else find_order id s.db)
  find_order-Adds id = ap (λ (l : List OrdersOrder). find_by order_id id l) a.added_order

  pub own_items-Adds :
      (id : Uuid)
      → (order.id == id) ≡ false
      → own_items id s'.db.order_items ≡ own_items id s.db.order_items
  own_items-Adds id e =
      ap (own_items id) a.added_items
      ∙ own_items-append id s.db.order_items a.rows
      ∙ ap (λ l. own_items id s.db.order_items ++ l)
          (own_items-other order.id id a.lines a.rows a.are_lines e)
      ∙ append-nil (own_items id s.db.order_items)

  pub Adds-Balanced :
      find_order order.id s.db ≡ none
      → ((id : Uuid) → Balanced (find_order id s.db) (own_items id s.db.order_items))
      → (id : Uuid) → Balanced (find_order id s'.db) (own_items id s'.db.order_items)
  Adds-Balanced new b id = elim (Bool-cases (order.id == id)) [
    | inl e ↦
        subst (λ (i : Uuid). Balanced (find_order i s'.db) (own_items i s'.db.order_items))
          (==→eq order.id id e) own
    | inr e ↦
        let found : find_order id s'.db ≡ find_order id s.db = find_order-Adds id ∙ rw e in
        subst (λ l. Balanced (find_order id s'.db) l) (sym (own_items-Adds id e))
          (subst (λ o. Balanced o (own_items id s.db.order_items)) (sym found) (b id))
  ]
    where
      own : Balanced (find_order order.id s'.db) (own_items order.id s'.db.order_items)
      own =
          let none_before : own_items order.id s.db.order_items ≡ [] =
            subst (λ o. Balanced o (own_items order.id s.db.order_items)) new (b order.id) in
          let (mine, lines) = own_items-own order.id a.lines a.rows a.are_lines in
          let all : own_items order.id s'.db.order_items ≡ a.rows =
            ap (own_items order.id) a.added_items
            ∙ own_items-append order.id s.db.order_items a.rows
            ∙ ap (λ l. l ++ own_items order.id a.rows) none_before
            ∙ mine in
          let found : find_order order.id s'.db ≡ some order =
            find_order-Adds order.id ∙ rw (==_self order.id) in
          subst (λ o. Balanced o (own_items order.id s'.db.order_items)) (sym found)
            (subst (λ l. Balanced (some order) l) (sym all)
              (subst (λ l. AllPriced l × (order.total_amount ≡ add_subtotals (pos 0) l)) (sym lines)
                (a.priced, a.summed)))
