-- ===== src/Order/Lifecycle/Invariant.antt =====
-- Every change keeps the tables and the queue valid, and so does every run of the order service.
use mathlib.Core.Path.{◌∙◌, subst}
use flash_deals.Base.{
  ◌≤◌, ◌<◌, ◌==◌, ==_ne, ◌≡◌, refl, sym, ap, Bool-cases, inl, inr, Option, none, some, List, [],
  ◌∷◌, Uuid, UuidText, find_by, update_by, find_by-update_by, if◌then◌else◌, arith,
}
use flash_deals.Rpc.{ProductService}
use flash_deals.Order.State.{OrderWorld, OrderDb, OrdersOrder, OrdersOrderItem, OrderRequest}
use flash_deals.Order.Queries.{order_id, find_order, own_items, confirmed_row, cancelled_row}
use flash_deals.Order.Service.Status.Checks.{with_order}
use flash_deals.Order.Lifecycle.{
  Stored, stored, Adds, SameTables, Change, kept, placed, queued, taken, worked, confirmed_order,
  cancelled_order,
}
use flash_deals.Order.Lifecycle.Valid.{
  Balanced, AreDistinct, Wait, IsValid, find_order-Adds, Adds-Balanced,
}
use flash_deals.Order.Lifecycle.Waiting.{Wait-later, Wait-used, Wait-last, Wait-new}
use flash_deals.Order.Lifecycle.Runs.{Runs, here, next, Step-Change}

-- The tables are the same but for identifiers that were drawn.
pub same-find :
    (s s' : Stored) → SameTables s s' → (id : Uuid) → find_order id s'.db ≡ find_order id s.db
same-find s s' (os, _, _) id = ap (find_by order_id id) os

module _ (s s' : Stored) (v : IsValid s) where
  SameTables-IsValid : SameTables s s' → Wait s'.db s'.queue → IsValid s'
  SameTables-IsValid (os, is, n) w = record {
    fresh = λ id h. same-find s s' (os, is, n) id ∙ v.fresh id (omega arith);
    distinct = subst AreDistinct (sym os) v.distinct;
    balanced = λ id.
        subst (λ (o : Option OrdersOrder). Balanced o (own_items id s'.db.order_items))
          (sym (same-find s s' (os, is, n) id))
          (subst (λ l. Balanced (find_order id s.db) (own_items id l)) (sym is) (v.balanced id));
    waiting = w;
  }

  SameTables-Wait : SameTables s s' → (q : List OrderRequest) → Wait s.db q → Wait s'.db q
  SameTables-Wait t q =
      Wait-later s.db s'.db q t.2 (λ k small new. same-find s s' t k.order_id ∙ new)

  Adds-IsValid :
      (order : OrdersOrder)
      → Adds order s s'
      → find_order order.id s.db ≡ none
      → order.id < s'.db.next_id
      → s.db.next_id ≤ s'.db.next_id
      → Wait s'.db s'.queue
      → IsValid s'
  Adds-IsValid order a new small n w = record {
    fresh = λ id h.
        find_order-Adds order s s' a id
        ∙ rw (==_ne order.id id (λ e. absurd (omega (arith, e)))) (v.fresh id (omega arith));
    distinct = subst AreDistinct (sym a.added_order) (new, v.distinct);
    balanced = Adds-Balanced order s s' a new v.balanced;
    waiting = w;
  }

  module _ (id : Uuid) (f : OrdersOrder → OrdersOrder)
      (same_id : (o : OrdersOrder) → (f o).id ≡ o.id)
      (same_total : (o : OrdersOrder) → (f o).total_amount ≡ o.total_amount)
      (written : s'.db ≡ with_order id f s.db) (same_queue : s'.queue ≡ s.queue) where
    pub find_order-with_order :
        (j : Uuid)
        → find_order j s'.db ≡ (
            if j == id
            then (elim (find_order j s.db) [ none ↦ none | some o ↦ some (f o) ])
            else find_order j s.db)
    find_order-with_order j =
        ap (λ (db : OrderDb). find_order j db) written
        ∙ find_by-update_by order_id j id f s.db.orders same_id

    still_none : (j : Uuid) → find_order j s.db ≡ none → find_order j s'.db ≡ none
    still_none j e = find_order-with_order j ∙ ground (arith, e)

    update_by-AreDistinct :
        (os : List OrdersOrder) → AreDistinct os → AreDistinct (update_by order_id id f os)
    update_by-AreDistinct [] h = tt
    update_by-AreDistinct (o ∷ os) (new, h) = (
      elim (Bool-cases (o.id == id)) [
        | inl e ↦ rw e (rw (same_id o) (free o.id os new))
        | inr e ↦ rw e (free o.id os new)
      ],
      update_by-AreDistinct os h,
    )
      where
        free :
            (j : Uuid) (l : List OrdersOrder)
            → find_by order_id j l ≡ none
            → find_by order_id j (update_by order_id id f l) ≡ none
        free j l e = find_by-update_by order_id j id f l same_id ∙ ground (arith, e)

    Balanced-changed :
        (o : Option OrdersOrder) (is : List OrdersOrderItem)
        → Balanced o is
        → Balanced (elim o [ none ↦ none | some o ↦ some (f o) ]) is
    Balanced-changed none is b = b
    Balanced-changed (some o) is (p, t) = (p, same_total o ∙ t)

    with_order-IsValid : IsValid s'
    with_order-IsValid = record {
      fresh = λ j h. still_none j (v.fresh j (subst (λ (db : OrderDb). db.next_id ≤ j) written h));
      distinct =
          subst (λ (db : OrderDb). AreDistinct db.orders) (sym written)
            (update_by-AreDistinct s.db.orders v.distinct);
      balanced = λ j.
          subst (λ (db : OrderDb). Balanced (find_order j s'.db) (own_items j db.order_items))
            (sym written)
            (subst (λ o. Balanced o (own_items j s.db.order_items)) (sym (find_order-with_order j))
              (elim (Bool-cases (j == id)) [
                | inl e ↦ rw e (
                    Balanced-changed (find_order j s.db) (own_items j s.db.order_items)
                      (v.balanced j))
                | inr e ↦ rw e (v.balanced j)
              ]));
      waiting = subst (Wait s'.db) (sym same_queue) (
          Wait-later s.db s'.db s.queue
            (subst (λ (db : OrderDb). s.db.next_id ≤ db.next_id) (sym written) (omega arith))
            (λ k small new. still_none k.order_id new) v.waiting);
    }

-- A change leaves a valid state valid.
pub Change-IsValid : (s s' : Stored) → Change s s' → IsValid s → IsValid s'
Change-IsValid s s' (kept same q) v =
    SameTables-IsValid s s' v same
      (subst (Wait s'.db) (sym q) (SameTables-Wait s s' v same s.queue v.waiting))
Change-IsValid s s' (placed order a new_id status more q) v =
    Adds-IsValid s s' v order a (v.fresh order.id (omega (arith, new_id))) (omega (arith, new_id))
      (omega arith)
      (subst (Wait s'.db) (sym q) (
        Wait-later s.db s'.db s.queue (omega arith)
          (λ k small new.
            find_order-Adds order s s' a k.order_id
            ∙ rw (==_ne order.id k.order_id (λ e. absurd (omega (arith, e, new_id)))) new)
          v.waiting))
Change-IsValid s s' (queued m new_id same more q) v = SameTables-IsValid s s' v same (
    subst (Wait s'.db) (sym q) (
      omega (arith, new_id),
      same-find s s' same m.order_id ∙ v.fresh m.order_id (omega (arith, new_id)),
      Wait-new s.db m.order_id s.queue (omega (arith, new_id)) v.waiting,
      SameTables-Wait s s' v same s.queue v.waiting,
    ))
Change-IsValid s s' (taken m same q) v =
    let (waits, _, _) = Wait-last s.db s'.queue m (subst (Wait s.db) q v.waiting) in
    SameTables-IsValid s s' v same (SameTables-Wait s s' v same s'.queue waits)
Change-IsValid s s' (worked m order a id status new more q) v =
    let (waits, differ, small) = Wait-last s.db s'.queue m (subst (Wait s.db) q v.waiting) in
    Adds-IsValid s s' v order a (subst (λ i. find_order i s.db ≡ none) (sym id) new)
      (omega (arith, id, small, more)) more
      (Wait-used s.db s'.db m s'.queue more
        (λ k d new_k.
          find_order-Adds order s s' a k.order_id
          ∙ rw (==_ne order.id k.order_id (λ e. absurd (d (sym e ∙ id)))) new_k)
        differ waits)
Change-IsValid s s' (confirmed_order id o found is d q) v =
    with_order-IsValid s s' v id (confirmed_row s.db.clock) (λ x. refl) (λ x. refl) d q
Change-IsValid s s' (cancelled_order id reason o found is d q) v =
    with_order-IsValid s s' v id (cancelled_row s.db.clock reason) (λ x. refl) (λ x. refl) d q

-- Whatever the calls of PostgreSQL, of Redis and of the product service do, answers that are lost
-- included: from valid tables and a valid queue, such as empty ones, every run of requests and of turns
-- of the worker leads to valid ones. No two orders have one identifier, the identifiers to come are
-- free, every order has the 32-bit sum of its items, each item has price times quantity and belongs to
-- an order, and the orders that wait in the queue have identifiers of their own that no order has.
pub Runs-IsValid :
    {R : Type 0} (ids : UuidText) (svc : ProductService R) (w w' : OrderWorld R)
    → IsValid (stored w)
    → Runs ids svc w w'
    → IsValid (stored w')
Runs-IsValid ids svc w w' v here = v
Runs-IsValid ids svc w w' v (next {w' = w1} r s) =
    Change-IsValid (stored w1) (stored w') (Step-Change ids svc w1 w' s)
      (Runs-IsValid ids svc w w1 v r)
