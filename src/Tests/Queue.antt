-- ===== src/Tests/Queue.antt =====
-- A run of the stock queue: two requests are sent, and one is served.
use flash_deals.Base.{negsuc, [], ◌∷◌, refl, arith}
use flash_deals.Product.Repository.{db_repository}
use flash_deals.Product.StockQueue.Channel.{
  StockUpdateRequest, StockQueue, new_stock_queue, send_request, take_request, Runs, here, then,
  sends, serves,
}
use flash_deals.Product.StockQueue.Channel.Fifo.{IsFifo, Runs-IsFifo}
use flash_deals.Product.StockQueue.Channel.Drains.{HasAnswered, Runs-answers}
use flash_deals.Tests.World.{shop}

abbrev one : StockUpdateRequest
one = record { product_id = 1; delta = negsuc 2; response = 1 }

abbrev two : StockUpdateRequest
two = record { product_id = 1; delta = negsuc 3; response = 2 }

abbrev reached : StockQueue
reached =
    take_request db_repository one (two ∷ [])
      (send_request two (send_request one (new_stock_queue shop)))

reached-Runs : Runs db_repository 10000 (new_stock_queue shop) (one ∷ two ∷ []) reached
unfolding new_stock_queue send_request
reached-Runs =
    then (then (then here (sends one refl (ground arith))) (sends two refl (ground arith)))
      (serves one (two ∷ []) refl refl)

Runs-IsFifo_example : IsFifo db_repository shop (one ∷ two ∷ []) reached
Runs-IsFifo_example = Runs-IsFifo db_repository 10000 shop (one ∷ two ∷ []) reached reached-Runs

-- The second request is served too.
abbrev finished : StockQueue
finished = take_request db_repository two [] reached

Runs-answers_example : HasAnswered (one ∷ two ∷ []) reached finished
unfolding new_stock_queue send_request take_request
Runs-answers_example =
    Runs-answers db_repository 10000 shop (one ∷ two ∷ []) [] reached finished reached-Runs refl
      (then here (serves two [] refl refl)) (ground arith)
