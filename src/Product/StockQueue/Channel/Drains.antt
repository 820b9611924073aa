-- ===== src/Product/StockQueue/Channel/Drains.antt =====
-- Every request that is sent before `Close` gets its answer once the worker has had its turns.
use mathlib.Core.Path.{subst}
use mathlib.Core.List.{append_assoc, append-nil, map-append}
use flash_deals.Base.{
  ℕ, suc, ◌+◌, ◌≤◌, true, false, ◌≡◌, refl, sym, ap, ◌∙◌, List, [], ◌∷◌, ◌++◌, length,
  length-append, arith,
}
use flash_deals.Product.State.{ProductWorld}
use flash_deals.Product.Repository.{ProductRepository}
use flash_deals.Product.StockQueue.Channel.{
  StockUpdateRequest, StockUpdateResponse, StockQueue, new_stock_queue, send_request, serve,
  take_request, close, stop_worker, Step, sends, serves, closes, stops, Runs, here, then,
}
use flash_deals.Product.StockQueue.Channel.Fifo.{
  IsFifo, serve_all, Runs-IsFifo, tickets, asked_tickets,
}

module _ (repo : ProductRepository) where
  serve_all-tickets :
      (reqs : List StockUpdateRequest) (answers : List StockUpdateResponse) (w : ProductWorld)
      → tickets (serve_all repo reqs (answers, w)).0 ≡ tickets answers ++ asked_tickets reqs
  unfolding serve
  serve_all-tickets [] answers w = sym (append-nil (tickets answers))
  serve_all-tickets (r ∷ rs) answers w =
      serve_all-tickets rs (serve repo r (answers, w)).0 (serve repo r (answers, w)).1
      ∙ ap (λ l. l ++ asked_tickets rs)
          (map-append (λ (a : StockUpdateResponse). a.response) answers _)
      ∙ append_assoc (tickets answers) (r.response ∷ []) (asked_tickets rs)

  -- How often the worker has taken a request in a run.
  abbrev pub turn_of :
      {size : ℕ} {sent : List StockUpdateRequest} {q q' : StockQueue} → Step repo size sent q q' → ℕ
  turn_of (sends req unclosed room) = 0
  turn_of (serves req others on e) = 1
  turn_of closes = 0
  turn_of (stops e) = 0

  abbrev pub turns :
      {size : ℕ} {first q : StockQueue} {sent : List StockUpdateRequest}
      → Runs repo size first sent q
      → ℕ
  turns here = 0
  turns (then run step) = turns run + turn_of step

  -- Every turn sends one answer.
  Step-count :
      (size : ℕ) (sent : List StockUpdateRequest) (q q' : StockQueue)
      → (s : Step repo size sent q q') → length q'.responses ≡ length q.responses + turn_of s
  unfolding send_request take_request serve close stop_worker
  Step-count size sent q q' (sends req unclosed room) = omega arith
  Step-count size sent q q' (serves req others on e) = length-append q.responses _
  Step-count size sent q q' closes = omega arith
  Step-count size sent q q' (stops e) = omega arith

  Runs-count :
      (size : ℕ) (first q : StockQueue) (sent : List StockUpdateRequest)
      → (run : Runs repo size first sent q)
      → length q.responses ≡ length first.responses + turns run
  Runs-count size first q sent here = omega arith
  Runs-count size first q sent (then {sent = before} {more = more} {q = middle} run step) =
      omega (arith, Runs-count size first middle before run, Step-count size more middle q step)

  -- Before `Close` the worker runs.
  Runs-running :
      (size : ℕ) (w : ProductWorld) (sent : List StockUpdateRequest) (q : StockQueue)
      → Runs repo size (new_stock_queue w) sent q
      → q.is_closed ≡ false
      → q.running ≡ true
  unfolding new_stock_queue send_request take_request close stop_worker
  Runs-running size w sent q here unclosed = refl
  Runs-running size w sent q (then {sent = before} {q = middle} run step) unclosed =
      go step unclosed (Runs-running size w before middle run)
    where
      go :
          {more : List StockUpdateRequest} {m q' : StockQueue}
          → Step repo size more m q'
          → q'.is_closed ≡ false
          → (m.is_closed ≡ false → m.running ≡ true)
          → q'.running ≡ true
      go (sends req e room) c h = h c
      go (serves req others on e) c h = on
      go closes c h = absurd (ground (arith, c))
      go (stops e) c h = absurd (ground (arith, c, e))

  -- One run after the other.
  Runs-trans :
      (size : ℕ) (first q q' : StockQueue) (sent more : List StockUpdateRequest)
      → Runs repo size first sent q
      → Runs repo size q more q'
      → Runs repo size first (sent ++ more) q'
  Runs-trans size first q q' sent more run here =
      subst (λ l. Runs repo size first l q) (sym (append-nil sent)) run
  Runs-trans size first q q' sent more run
        (then {sent = before} {more = last} {q = middle} later step) =
      subst (λ l. Runs repo size first l q') (append_assoc sent before last)
        (then (Runs-trans size first q middle sent before run later) step)

length-asked : (reqs : List StockUpdateRequest) → length (asked_tickets reqs) ≡ length reqs
length-asked [] = refl
length-asked (r ∷ rs) = ap suc (length-asked rs)

length-tickets : (answers : List StockUpdateResponse) → length (tickets answers) ≡ length answers
length-tickets [] = refl
length-tickets (a ∷ as') = ap suc (length-tickets as')

-- Of two ways to cut a list, the longer first part begins with the shorter.
longer_part :
    {A : Type 0} (xs ys bs cs : List A)
    → xs ++ ys ≡ bs ++ cs
    → length bs ≤ length xs
    → (others : List A) × (xs ≡ bs ++ others)
longer_part xs ys [] cs e h = (xs, refl)
longer_part [] ys (b ∷ bs) cs e h = absurd (ground (arith, h))
longer_part (x ∷ xs) ys (b ∷ bs) cs e h =
    let (others, f) = longer_part xs ys bs cs (ground (arith, e)) (omega (arith, h)) in
    (others, ground (arith, e, f))

-- What holds of a run that goes on from `q` to `q'`, where `sent` was sent before: the worker runs at `q`,
-- and `q'` has the answers to all of these, in the order of sending, before any other.
abbrev pub HasAnswered : List StockUpdateRequest → StockQueue → StockQueue → Type 0
HasAnswered sent q q' =
    (q.running ≡ true) × ((others : List ℕ) × (tickets q'.responses ≡ asked_tickets sent ++ others))

module _ (repo : ProductRepository) where
  -- In every state that is reached from a new queue and in which `Close` has not been called, the worker
  -- runs. In every run that goes on from there, whatever the callers and `Close` do in it, as soon as the
  -- worker has taken as many requests as waited at its start, each request that was sent before has
  -- been answered, once, in the order of sending, and before every request that was sent later.
  pub Runs-answers :
      (size : ℕ) (w : ProductWorld) (sent more : List StockUpdateRequest) (q q' : StockQueue)
      → Runs repo size (new_stock_queue w) sent q
      → q.is_closed ≡ false
      → (later : Runs repo size q more q') → length q.requests ≤ turns repo later
      → HasAnswered sent q q'
  unfolding new_stock_queue
  Runs-answers size w sent more q q' run unclosed later enough = (
    Runs-running repo size w sent q run unclosed,
    (
      asked_tickets rest.0,
      answered f'
          ∙ ap asked_tickets rest.1
          ∙ map-append (λ (r : StockUpdateRequest). r.response) sent rest.0,
    ),
  )
    where
      f : IsFifo repo w sent q
      f = Runs-IsFifo repo size w sent q run

      f' : IsFifo repo w (sent ++ more) q'
      f' =
          Runs-IsFifo repo size w (sent ++ more) q'
            (Runs-trans repo size (new_stock_queue w) q q' sent more run later)

      answered :
          {all : List StockUpdateRequest} {u : StockQueue}
          → (g : IsFifo repo w all u) → tickets u.responses ≡ asked_tickets g.served
      answered g =
          ap (λ (p : List StockUpdateResponse × ProductWorld). tickets p.0) g.done
          ∙ serve_all-tickets repo g.served [] w

      served_count :
          {all : List StockUpdateRequest} {u : StockQueue}
          → (g : IsFifo repo w all u) → length u.responses ≡ length g.served
      served_count {u = u} g =
          sym (length-tickets u.responses) ∙ ap length (answered g) ∙ length-asked g.served

      longer : length sent ≤ length f'.served
      longer = omega (
        arith,
        enough,
        Runs-count repo size q q' more later,
        served_count f,
        served_count f',
        ap length f.all,
        length-append f.served q.requests,
      )

      rest : (others : List StockUpdateRequest) × (f'.served ≡ sent ++ others)
      rest = longer_part f'.served q'.requests sent more (sym f'.all) longer
