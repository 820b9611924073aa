-- ===== src/Product/StockQueue/Channel/Fifo.antt =====
-- The runs of the stock queue answer requests in the order in which they were sent.
use mathlib.Core.List.{append_assoc, append-nil}
use flash_deals.Base.{ℕ, ◌≡◌, refl, sym, ap, ◌∙◌, List, [], ◌∷◌, ◌++◌, map}
use flash_deals.Product.State.{ProductWorld}
use flash_deals.Product.Repository.{ProductRepository}
use flash_deals.Product.StockQueue.Channel.{
  StockUpdateRequest, StockUpdateResponse, StockQueue, new_stock_queue, send_request, serve,
  take_request, close, stop_worker, Step, sends, serves, closes, stops, Runs, here, then,
}

module _ (repo : ProductRepository) where
  -- The updates one after the other, with no queue.
  abbrev pub serve_all :
      List StockUpdateRequest
      → List StockUpdateResponse × ProductWorld
      → List StockUpdateResponse × ProductWorld
  serve_all [] s = s
  serve_all (req ∷ reqs) s = serve_all reqs (serve repo req s)

  serve_all-append :
      (reqs : List StockUpdateRequest) (req : StockUpdateRequest)
      (s : List StockUpdateResponse × ProductWorld)
      → serve_all (reqs ++ req ∷ []) s ≡ serve repo req (serve_all reqs s)
  serve_all-append [] req s = refl
  serve_all-append (r ∷ rs) req s = serve_all-append rs req (serve repo r s)

  -- The requests that were sent are those that are answered, and then those in the channel; answers and
  -- world are those of the answered requests one after the other.
  pub record IsFifo (w : ProductWorld) (sent : List StockUpdateRequest) (q : StockQueue)
      : Type 0 where
    pub served : List StockUpdateRequest
    pub all : sent ≡ served ++ q.requests
    pub done : (q.responses, q.world) ≡ serve_all served ([], w)

  module _ (size : ℕ) (w : ProductWorld) where
    Step-IsFifo :
        (sent more : List StockUpdateRequest) (q q' : StockQueue)
        → IsFifo w sent q
        → Step repo size more q q'
        → IsFifo w (sent ++ more) q'
    unfolding send_request take_request close stop_worker serve
    Step-IsFifo sent more q q' f (sends req still room) = record {
      served = f.served;
      all = ap (λ l. l ++ req ∷ []) f.all ∙ append_assoc f.served q.requests (req ∷ []);
      done = f.done;
    }
    Step-IsFifo sent more q q' f (serves req others on e) = record {
      served = f.served ++ req ∷ [];
      all =
          append-nil sent
          ∙ f.all
          ∙ ap (λ l. f.served ++ l) e
          ∙ sym (append_assoc f.served (req ∷ []) others);
      done = ap (serve repo req) f.done ∙ sym (serve_all-append f.served req ([], w));
    }
    Step-IsFifo sent more q q' f closes = record {
      served = f.served;
      all = append-nil sent ∙ f.all;
      done = f.done;
    }
    Step-IsFifo sent more q q' f (stops e) = record {
      served = f.served;
      all = append-nil sent ∙ f.all;
      done = f.done;
    }

    -- In every state that is reached from a new queue, whatever callers and worker do: the requests that
    -- were sent are those that are answered and then those that still wait, and the answers and the
    -- tables are those of the answered requests, one after the other in the order in which they were sent.
    pub Runs-IsFifo :
        (sent : List StockUpdateRequest) (q : StockQueue)
        → Runs repo size (new_stock_queue w) sent q
        → IsFifo w sent q
    unfolding new_stock_queue
    Runs-IsFifo sent q here = record { served = []; all = refl; done = refl }
    Runs-IsFifo sent q (then {sent = before} {more = more} {q = p} runs s) =
        Step-IsFifo before more p q (Runs-IsFifo before p runs) s

abbrev pub tickets : List StockUpdateResponse → List ℕ
tickets answers = map (λ (a : StockUpdateResponse). a.response) answers

abbrev pub asked_tickets : List StockUpdateRequest → List ℕ
asked_tickets reqs = map (λ (r : StockUpdateRequest). r.response) reqs
