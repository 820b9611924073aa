-- ===== src/Order/Queue.antt =====
-- The queue of orders, a Redis list: services/order/go/internal/queue/order_queue.go. LPUSH puts a
-- message at the left end, and BRPOP takes one from the right end. A message is its JSON, which reads
-- back as what was written.
pub mod Fifo
use flash_deals.Base.{ℕ, length, Option, none, some, List, [], ◌∷◌, ok, err, Exec}
use flash_deals.Order.State.{OrderWorld, OrderRequest, Error, driver, call}

-- The right end of a list, and what stands before it.
abbrev pub split_last : {A : Type 0} → List A → Option (List A × A)
split_last [] = none
split_last (x ∷ xs) =
    let rest = split_last xs in elim rest [ none ↦ some ([], x) | some (ys, y) ↦ some (x ∷ ys, y) ]

-- `redis.Nil`, after the time to wait
abbrev pub nothing_queued : Error
nothing_queued = driver "redis: nil"

module _ {R : Type 0} where
  unfoldable pub enqueue : OrderRequest → Exec (OrderWorld R) Error (Unit {0})
  enqueue req = call λ w. (ok tt, record w { queue = req ∷ w.queue })

  unfoldable pub dequeue : Exec (OrderWorld R) Error OrderRequest
  dequeue = call λ w. elim (split_last w.queue) [
    | none ↦ (err nothing_queued, w)
    | some (others, req) ↦ (ok req, record w { queue = others })
  ]

  unfoldable pub queue_length : Exec (OrderWorld R) Error ℕ
  queue_length = call λ w. (ok (length w.queue), w)
