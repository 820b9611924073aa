-- ===== src/Order/Lifecycle/Follows.antt =====
-- What can become of an order: services/order/go/internal/service/order.go and internal/queue/worker.go.
use mathlib.Core.Path.{◌∙◌, subst}
use flash_deals.Base.{
  ℕ, ◌==◌, ==→eq, ◌≡◌, refl, sym, ap, true, false, Bool-cases, inl, inr, Option, String, none, some,
  Uuid, UuidText, if◌then◌else◌, arith,
}
use flash_deals.Rpc.{ProductService}
use flash_deals.Order.State.{OrderWorld, OrderDb, OrdersOrder, pending, confirmed, cancelled}
use flash_deals.Order.Queries.{find_order, own_items, confirmed_row, cancelled_row}
use flash_deals.Order.Service.Status.{is_cancellable}
use flash_deals.Order.Lifecycle.{
  Stored, stored, Adds, Change, kept, placed, queued, taken, worked, confirmed_order,
  cancelled_order,
}
use flash_deals.Order.Lifecycle.Valid.{IsValid, find_order-Adds, own_items-Adds}
use flash_deals.Order.Lifecycle.Invariant.{Runs-IsValid, same-find, find_order-with_order}
use flash_deals.Order.Lifecycle.Runs.{Runs, here, next, Step-Change}

-- A pending order is confirmed or cancelled, a confirmed one is cancelled, and nothing else happens:
-- only the status and the times are written, and the reason of a cancellation.
pub data Follows (o o' : OrdersOrder) : Type 0 where
  unchanged : o' ≡ o → Follows o o'
  was_confirmed : (now : ℕ) → o.status ≡ pending → o' ≡ confirmed_row now o → Follows o o'
  was_cancelled :
      (now : ℕ) (reason : Option String)
      → is_cancellable o.status ≡ true
      → o' ≡ cancelled_row now reason o
      → Follows o o'

-- One order in two states: its row follows, and its items are the same.
abbrev pub Lives : Uuid → OrdersOrder → Stored → Stored → Type 0
Lives id o s s' =
    (o' : OrdersOrder) × (find_order id s'.db ≡ some o')
    × Follows o o'
    × (own_items id s'.db.order_items ≡ own_items id s.db.order_items)

Follows-confirmed :
    (o o1 o2 : OrdersOrder) (now : ℕ)
    → Follows o o1
    → o1.status ≡ pending
    → o2 ≡ confirmed_row now o1
    → Follows o o2
Follows-confirmed o o1 o2 now (unchanged e) is c =
    was_confirmed now (ap (λ (x : OrdersOrder). x.status) (sym e) ∙ is)
      (c ∙ ap (confirmed_row now) e)
Follows-confirmed o o1 o2 now (was_confirmed t p e) is c =
    absurd (not_pending (sym (ap (λ (x : OrdersOrder). x.status) e) ∙ is))
  where
    not_pending : confirmed ≡ pending → ⊥
    not_pending h = cc h
Follows-confirmed o o1 o2 now (was_cancelled t r p e) is c =
    absurd (not_pending (sym (ap (λ (x : OrdersOrder). x.status) e) ∙ is))
  where
    not_pending : cancelled ≡ pending → ⊥
    not_pending h = cc h

Follows-cancelled :
    (o o1 o2 : OrdersOrder) (now : ℕ) (reason : Option String)
    → Follows o o1
    → is_cancellable o1.status ≡ true
    → o2 ≡ cancelled_row now reason o1
    → Follows o o2
Follows-cancelled o o1 o2 now reason (unchanged e) is c =
    was_cancelled now reason (ap (λ (x : OrdersOrder). is_cancellable x.status) (sym e) ∙ is)
      (c ∙ ap (cancelled_row now reason) e)
Follows-cancelled o o1 o2 now reason (was_confirmed t p e) is c =
    was_cancelled now reason (ap is_cancellable p) (c ∙ ap (cancelled_row now reason) e)
Follows-cancelled o o1 o2 now reason (was_cancelled t r p e) is c =
    absurd (not_again (sym (ap (λ (x : OrdersOrder). is_cancellable x.status) e) ∙ is))
  where
    not_again : false ≡ true → ⊥
    not_again h = cc h

module _ (id : Uuid) (o : OrdersOrder) (s s1 : Stored) where
  -- A state with the same row and the same items.
  Lives-same :
      (s2 : Stored)
      → Lives id o s s1
      → find_order id s2.db ≡ find_order id s1.db
      → own_items id s2.db.order_items ≡ own_items id s1.db.order_items
      → Lives id o s s2
  Lives-same s2 (o1, found, f, is) e e' = (o1, e ∙ found, f, e' ∙ is)

  Lives-Adds :
      (s2 : Stored) (order : OrdersOrder)
      → Lives id o s s1
      → Adds order s1 s2
      → find_order order.id s1.db ≡ none
      → Lives id o s s2
  Lives-Adds s2 order (o1, found, f, is) a new = elim (Bool-cases (order.id == id)) [
    | inl e ↦
        let clash : none ≡ some o1 =
          sym new ∙ ap (λ i. find_order i s1.db) (==→eq order.id id e) ∙ found in
        absurd (ground (arith, clash))
    | inr e ↦
        Lives-same s2 (o1, found, f, is) (find_order-Adds order s1 s2 a id ∙ rw e)
          (own_items-Adds order s1 s2 a id e)
  ]

  Lives-with_order :
      (s2 : Stored) (j : Uuid) (g : OrdersOrder → OrdersOrder)
      → Lives id o s s1
      → (found_j : (j' : Uuid)
          → find_order j' s2.db ≡ (
              if j' == j
              then (elim (find_order j' s1.db) [ none ↦ none | some x ↦ some (g x) ])
              else find_order j' s1.db))
      → own_items id s2.db.order_items ≡ own_items id s1.db.order_items
      → ((o1 : OrdersOrder) → find_order j s1.db ≡ some o1 → Follows o o1 → Follows o (g o1))
      → Lives id o s s2
  Lives-with_order s2 j g (o1, found, f, is) found_j same step = elim (Bool-cases (id == j)) [
    | inl e ↦ (
      g o1,
      found_j id ∙ ground (arith, e, found),
      step o1 (ap (λ i. find_order i s1.db) (sym (==→eq id j e)) ∙ found) f,
      same ∙ is,
    )
    | inr e ↦ (o1, found_j id ∙ ground (arith, e, found), f, same ∙ is)
  ]

Lives-Change :
    (id : Uuid) (o : OrdersOrder) (s s1 s2 : Stored)
    → IsValid s1
    → Lives id o s s1
    → Change s1 s2
    → Lives id o s s2
Lives-Change id o s s1 s2 v l (kept same q) =
    Lives-same id o s s1 s2 l (same-find s1 s2 same id) (ap (own_items id) same.1)
Lives-Change id o s s1 s2 v l (queued m new_id same more q) =
    Lives-same id o s s1 s2 l (same-find s1 s2 same id) (ap (own_items id) same.1)
Lives-Change id o s s1 s2 v l (taken m same q) =
    Lives-same id o s s1 s2 l (same-find s1 s2 same id) (ap (own_items id) same.1)
Lives-Change id o s s1 s2 v l (placed order a new_id status more q) =
    Lives-Adds id o s s1 s2 order l a (v.fresh order.id (omega (arith, new_id)))
Lives-Change id o s s1 s2 v l (worked m order a its_id status new more q) =
    Lives-Adds id o s s1 s2 order l a (subst (λ i. find_order i s1.db ≡ none) (sym its_id) new)
Lives-Change id o s s1 s2 v l (confirmed_order j p found is d q) =
    Lives-with_order id o s s1 s2 j (confirmed_row s1.db.clock) l
      (find_order-with_order s1 s2 v j (confirmed_row s1.db.clock) (λ x. refl) (λ x. refl) d q)
      (ap (λ (db : OrderDb). own_items id db.order_items) d)
      (λ o1 e f.
        let same : p ≡ o1 = ground (arith, e, found) in
        Follows-confirmed o o1 (confirmed_row s1.db.clock o1) s1.db.clock f
          (ap (λ (x : OrdersOrder). x.status) (sym same) ∙ is) refl)
Lives-Change id o s s1 s2 v l (cancelled_order j reason p found is d q) =
    Lives-with_order id o s s1 s2 j (cancelled_row s1.db.clock reason) l
      (find_order-with_order s1 s2 v j (cancelled_row s1.db.clock reason) (λ x. refl) (λ x. refl) d
        q)
      (ap (λ (db : OrderDb). own_items id db.order_items) d)
      (λ o1 e f.
        let same : p ≡ o1 = ground (arith, e, found) in
        Follows-cancelled o o1 (cancelled_row s1.db.clock reason o1) s1.db.clock reason f
          (ap (λ (x : OrdersOrder). is_cancellable x.status) (sym same) ∙ is) refl)

-- Whatever the calls do, answers that are lost included, and from valid tables and a valid queue: an
-- order that is in the tables stays there through every run of requests and of turns of the worker. Its
-- items stay as they are, and its row too, but that a pending order may become confirmed, and a pending
-- or confirmed one cancelled for good; then only status, times and reason are written.
pub Runs-Follows :
    {R : Type 0} (ids : UuidText) (svc : ProductService R) (w w' : OrderWorld R) (id : Uuid)
    (o : OrdersOrder)
    → IsValid (stored w)
    → find_order id w.db ≡ some o
    → Runs ids svc w w'
    → Lives id o (stored w) (stored w')
Runs-Follows ids svc w w' id o v found here = (o, found, unchanged refl, refl)
Runs-Follows ids svc w w' id o v found (next {w' = w1} r st) =
    Lives-Change id o (stored w) (stored w1) (stored w') (Runs-IsValid ids svc w w1 v r)
      (Runs-Follows ids svc w w1 id o v found r) (Step-Change ids svc w1 w' st)
