-- ===== src/Order/Service/Status/Checks.antt =====
-- The checks that `ConfirmOrder` and `CancelOrder` make under the lock, and the rows they write.
use flash_deals.Base.{
  Bool, true, false, ◌≡◌, refl, some, Uuid, Result, ok, err, Exec, raise, Option-cases, inl, inr,
  arith, if◌then◌else◌, update_by,
}
use flash_deals.Order.State.{OrdersOrder, OrderDb}
use flash_deals.Order.Queries
use flash_deals.Order.Queries.{
  GetOrderForUpdateRow, CancelOrderParams, find_order, order_id, confirmed_row, cancelled_row,
}

-- Two tests before a block: the block runs only if both hold, and else nothing happens.
pub checked :
    {S E A : Type 0} (Q : Result E A × S → Type 0) (m : Exec S E A) (t u : Bool) (e1 e2 : E) (s : S)
    → (t ≡ true → u ≡ true → Q (m s))
    → ((e : E) → Q (err e, s))
    → Q ((if t then (if u then m else raise e1) else raise e2) s)
checked Q m true true e1 e2 s good bad = good refl refl
checked Q m true false e1 e2 s good bad = bad e1
checked Q m false u e1 e2 s good bad = bad e2

-- What the lock has read.
pub get_order_for_update_lem :
    (id : Uuid) (db db' : OrderDb) (row : GetOrderForUpdateRow)
    → Queries.get_order_for_update id db ≡ (ok row, db')
    → (o : OrdersOrder) × (find_order id db ≡ some o)
      × (row.user_id ≡ o.user_id)
      × (row.status ≡ o.status)
      × (db' ≡ db)
unfolding Queries.get_order_for_update
get_order_for_update_lem id db db' row h = elim (Option-cases (find_order id db)) [
  | inl e ↦ absurd (ground (arith, e))
  | inr (o, e) ↦ (o, e, ground (arith, e), ground (arith, e), ground (arith, e))
]

-- The tables with one order's row changed.
abbrev pub with_order : Uuid → (OrdersOrder → OrdersOrder) → OrderDb → OrderDb
with_order id f db = record db { orders = update_by order_id id f db.orders }

pub confirm_order_lem :
    (id : Uuid) (db db' : OrderDb) (o row : OrdersOrder)
    → find_order id db ≡ some o
    → Queries.confirm_order id db ≡ (ok row, db')
    → (row ≡ confirmed_row db.clock o) × (db' ≡ with_order id (confirmed_row db.clock) db)
unfolding Queries.confirm_order
confirm_order_lem id db db' o row e h = (ground (arith, e), ground (arith, e))

pub cancel_order_lem :
    (arg : CancelOrderParams) (db db' : OrderDb) (o row : OrdersOrder)
    → find_order arg.id db ≡ some o
    → Queries.cancel_order arg db ≡ (ok row, db')
    → (row ≡ cancelled_row db.clock arg.cancel_reason o)
      × (db' ≡ with_order arg.id (cancelled_row db.clock arg.cancel_reason) db)
unfolding Queries.cancel_order
cancel_order_lem arg db db' o row e h = (ground (arith, e), ground (arith, e))
