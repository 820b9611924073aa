-- ===== src/Order/State.antt =====
-- What the order service works on: the rows of its tables, its queue in Redis, its errors, and the
-- calls of the database and of the product service. From services/order/go/internal/db/models.go,
-- internal/queue/order_queue.go, and the schema in services/order/db.
use flash_deals.Base.{
  ℕ, ℤ, String, Bool, Option, List, Uuid, ok, err, Exec, Outcome, next, rest, under,
}
use flash_deals.Rpc.{Status}

pub data OrderStatus : Type 0 where
  pending confirmed shipped delivered cancelled : OrderStatus

-- The constants of `OrdersOrderStatus`.
abbrev pub status_text : OrderStatus → String
status_text pending = "pending"
status_text confirmed = "confirmed"
status_text shipped = "shipped"
status_text delivered = "delivered"
status_text cancelled = "cancelled"

pub record OrdersOrder : Type 0 where
  pub id : Uuid
  pub user_id : Uuid
  pub total_amount : ℤ
  pub status : OrderStatus
  pub recipient_name : Option String
  pub phone : Option String
  pub address : Option String
  pub address_detail : Option String
  pub postal_code : Option String
  pub cancelled_at : Option ℕ
  pub cancel_reason : Option String
  pub created_at : ℕ
  pub updated_at : ℕ

pub record OrdersOrderItem : Type 0 where
  pub id : Uuid
  pub order_id : Uuid
  pub product_id : Uuid
  pub deal_id : Option Uuid
  pub product_name : String
  pub quantity : ℤ
  pub unit_price : ℤ
  pub subtotal : ℤ
  pub created_at : ℕ

-- `gen_random_uuid()` and `uuid.New()` are a counter here: each value is new. The newest rows come
-- first in `orders`, and last in `order_items`. `clock` is what `NOW()` and `time.Now()` read.
pub record OrderDb : Type 0 where
  pub orders : List OrdersOrder
  pub order_items : List OrdersOrderItem
  pub next_id : Uuid
  pub clock : ℕ

-- An error of PostgreSQL or Redis; `no_rows` is `pgx.ErrNoRows`.
pub data Error : Type 0 where
  no_rows : Error
  driver : String → Error

abbrev pub error_text : Error → String
error_text no_rows = "no rows in result set"
error_text (driver m) = m

-- An error of a gRPC call: a status, or one that `status.FromError` does not know.
pub data RpcError : Type 0 where
  status_error : Status → RpcError
  plain_error : String → RpcError

-- A message of the queue of orders: services/order/go/internal/queue/order_queue.go.
pub record OrderItemReq : Type 0 where
  pub product_id : Uuid
  pub deal_id : Option Uuid
  pub quantity : ℤ
  pub product_name : String
  pub unit_price : ℤ

pub record ShippingAddr : Type 0 where
  pub recipient_name : String
  pub phone : String
  pub address : String
  pub address_detail : Option String
  pub postal_code : String

pub record OrderRequest : Type 0 where
  pub order_id : Uuid
  pub user_id : Uuid
  pub items : List OrderItemReq
  pub shipping_address : Option ShippingAddr
  pub created_at : ℕ

-- `queue` is the Redis list under `order:queue`, with its left end first.
-- `R` is the state of the product service. `connected` says whether `InitClient` has set `client`.
-- `script` and `net` have the outcomes to come of the calls of PostgreSQL and Redis, and of the
-- gRPC calls.
pub record OrderWorld (R : Type 0) : Type 0 where
  pub db : OrderDb
  pub remote : R
  pub connected : Bool
  pub queue : List OrderRequest
  pub script : List (Outcome Error)
  pub net : List (Outcome RpcError)

abbrev pub call : {R A : Type 0} → Exec (OrderWorld R) Error A → Exec (OrderWorld R) Error A
call op w = under (next w.script) op (record w { script = rest w.script })

-- A query in a transaction of its own.
abbrev pub on_db : {R A : Type 0} → Exec OrderDb Error A → Exec (OrderWorld R) Error A
on_db q = call λ w. let (r, d) = q w.db in (r, record w { db = d })

-- A query inside a transaction, with the tables after it.
abbrev pub in_tx :
    {R A : Type 0} → Exec OrderDb Error A → OrderDb → Exec (OrderWorld R) Error (A × OrderDb)
in_tx q tx = call λ w. let (r, tx') = q tx in (elim r [ ok a ↦ ok (a, tx') | err e ↦ err e ], w)

-- A gRPC call.
abbrev pub rpc : {R A : Type 0} → Exec R Status A → Exec (OrderWorld R) RpcError A
rpc op w =
    under (next w.net)
      (λ w'.
        let (r, s) = op w'.remote in
        (elim r [ ok a ↦ ok a | err e ↦ err (status_error e) ], record w' { remote = s }))
      (record w { net = rest w.net })

-- `pool.Begin`: the tables as the transaction sees them. They are dropped on an early return, as
-- the deferred `tx.Rollback` does.
abbrev pub begin_tx : {R : Type 0} → Exec (OrderWorld R) Error OrderDb
begin_tx = call λ w. (ok w.db, w)

-- `tx.Commit`
abbrev pub commit_tx : {R : Type 0} → OrderDb → Exec (OrderWorld R) Error (Unit {0})
commit_tx tx = call λ w. (ok tt, record w { db = tx })

-- A query in a transaction that is over: pgx refuses it, with `ErrTxClosed`.
abbrev pub in_closed_tx : {R A : Type 0} → Exec (OrderWorld R) Error A
in_closed_tx w = (err (driver "tx is closed"), w)
