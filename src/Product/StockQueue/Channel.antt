-- ===== src/Product/StockQueue/Channel.antt =====
-- The channel of services/product/go/internal/queue/stock_queue.go, its worker, and their runs.
pub mod Fifo
pub mod Drains
use flash_deals.Base.{
  ℕ, ◌<◌, ℤ, Bool, true, false, ◌≡◌, refl, sym, ap, ◌∙◌, List, [], ◌∷◌, ◌++◌, Uuid, Result, ok, err,
  length,
}
use flash_deals.Product.State.{ProductWorld, Error}
use flash_deals.Product.Queries.{UpdateStockRow}
use flash_deals.Product.Repository.{ProductRepository}

-- `response` tells the channels of the answers apart, as `make` does.
pub record StockUpdateRequest : Type 0 where
  pub product_id : Uuid
  pub delta : ℤ
  pub response : ℕ

pub record StockUpdateResponse : Type 0 where
  pub response : ℕ
  pub result : Result Error UpdateStockRow

-- The requests in the channel, the oldest first; the answers that the worker has sent, in the order
-- in which it sent them; whether the worker runs, and whether `Close` has been called.
pub record StockQueue : Type 0 where
  pub requests : List StockUpdateRequest
  pub responses : List StockUpdateResponse
  pub running : Bool
  pub is_closed : Bool
  pub world : ProductWorld

unfoldable pub new_stock_queue : ProductWorld → StockQueue
new_stock_queue w = record {
  requests = [];
  responses = [];
  running = true;
  is_closed = false;
  world = w;
}

unfoldable pub send_request : StockUpdateRequest → StockQueue → StockQueue
send_request req q = record q { requests = q.requests ++ req ∷ [] }

-- One update by the worker, and its answer.
unfoldable pub serve :
    ProductRepository
    → StockUpdateRequest
    → List StockUpdateResponse × ProductWorld
    → List StockUpdateResponse × ProductWorld
serve repo req (answers, w) =
    let (r, w') = repo.update_stock_with_lock req.product_id req.delta w in
    (answers ++ record { response = req.response; result = r } ∷ [], w')

-- The worker takes the oldest request, whose successors are `others`.
unfoldable pub take_request :
    ProductRepository → StockUpdateRequest → List StockUpdateRequest → StockQueue → StockQueue
unfolding serve
take_request repo req others q =
    let (answers, w) = serve repo req (q.responses, q.world) in
    record q { requests = others; responses = answers; world = w }

-- `Close`: the context is cancelled and the channel closed.
unfoldable pub close : StockQueue → StockQueue
close q = record q { is_closed = true }

unfoldable pub stop_worker : StockQueue → StockQueue
stop_worker q = record q { running = false }

-- What can happen next, with a channel of that size, and the requests it sends: a caller's `select`
-- sends only while there is room; the worker's takes a request, or, once the queue is closed, ends.
pub data Step (repo : ProductRepository) (size : ℕ)
    : List StockUpdateRequest → StockQueue → StockQueue → Type 0 where
  sends :
      {q : StockQueue} (req : StockUpdateRequest)
      → q.is_closed ≡ false
      → length q.requests < size
      → Step repo size (req ∷ []) q (send_request req q)
  serves :
      {q : StockQueue} (req : StockUpdateRequest) (others : List StockUpdateRequest)
      → q.running ≡ true
      → q.requests ≡ req ∷ others
      → Step repo size [] q (take_request repo req others q)
  closes : {q : StockQueue} → Step repo size [] q (close q)
  stops : {q : StockQueue} → q.is_closed ≡ true → Step repo size [] q (stop_worker q)

-- The states that are reached from the first, with the requests that were sent on the way.
pub data Runs (repo : ProductRepository) (size : ℕ) (first : StockQueue)
    : List StockUpdateRequest → StockQueue → Type 0 where
  here : Runs repo size first [] first
  then :
      {sent more : List StockUpdateRequest} {q q' : StockQueue}
      → Runs repo size first sent q
      → Step repo size more q q'
      → Runs repo size first (sent ++ more) q'
