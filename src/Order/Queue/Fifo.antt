-- ===== src/Order/Queue/Fifo.antt =====
-- The queue of orders is first in, first out.
use mathlib.Core.Path.{◌∙◌, subst}
use flash_deals.Base.{
  ◌≡◌, refl, sym, ap, none, some, List, [], ◌∷◌, ◌++◌, Result, ok, err, arith, NoLost, Option-cases,
  inl, inr, Outcome, done, refused, lost, next, rest,
}
use flash_deals.Order.State.{OrderWorld, OrderRequest, Error}
use flash_deals.Order.Queue.{split_last, nothing_queued, enqueue, dequeue}

-- The messages in the order in which they came.
abbrev pub in_order : List OrderRequest → List OrderRequest
in_order [] = []
in_order (x ∷ xs) = in_order xs ++ x ∷ []

pub in_order-append :
    (xs : List OrderRequest) (x : OrderRequest) → in_order (xs ++ x ∷ []) ≡ x ∷ in_order xs
in_order-append [] x = refl
in_order-append (y ∷ ys) x = ap (λ zs. zs ++ y ∷ []) (in_order-append ys x)

pub split_last-append :
    (xs ys : List OrderRequest) (y : OrderRequest)
    → split_last xs ≡ some (ys, y)
    → xs ≡ ys ++ y ∷ []
split_last-append [] ys y h = absurd (ground (arith, h))
split_last-append (x ∷ xs) ys y h = elim (Option-cases (split_last xs)) [
  | inl e ↦ ground (arith, e, h, split_last_none xs e)
  | inr ((zs, z), e) ↦ ground (arith, e, h, split_last-append xs zs z e)
]
  where
    split_last_none : (l : List OrderRequest) → split_last l ≡ none → l ≡ []
    split_last_none [] k = refl
    split_last_none (a ∷ as') k = elim (Option-cases (split_last as')) [
      | inl e ↦ absurd (ground (arith, e, k))
      | inr (p, e) ↦ absurd (ground (arith, e, k))
    ]

module _ {R : Type 0} where
  -- A message that is put in comes last; a failure has put in nothing.
  abbrev pub Enqueues :
      OrderRequest → OrderWorld R → Result Error (Unit {0}) × OrderWorld R → Type 0
  Enqueues req w (ok _, w') = (in_order w'.queue ≡ in_order w.queue ++ req ∷ []) × (w'.db ≡ w.db)
  Enqueues req w (err e, w') = (w'.queue ≡ w.queue) × (w'.db ≡ w.db)

  -- The message that is taken out is the first; a failure has taken out nothing.
  abbrev pub Dequeues : OrderWorld R → Result Error OrderRequest × OrderWorld R → Type 0
  Dequeues w (ok req, w') = (in_order w.queue ≡ req ∷ in_order w'.queue) × (w'.db ≡ w.db)
  Dequeues w (err e, w') = (w'.queue ≡ w.queue) × (w'.db ≡ w.db)

  dequeue-split :
      (w : OrderWorld R)
      → ((ys : List OrderRequest) (y : OrderRequest)
          → split_last w.queue ≡ some (ys, y)
          → in_order w.queue ≡ y ∷ in_order ys)
  dequeue-split w ys y e = ap in_order (split_last-append w.queue ys y e) ∙ in_order-append ys y

  -- Where no answer of Redis is lost, `Enqueue` appends to the messages that wait and `Dequeue` takes
  -- the one that has waited longest; a failure of either changes nothing.
  pub queue-Fifo :
      (req : OrderRequest) (w : OrderWorld R)
      → NoLost w.script
      → Enqueues req w (enqueue req w) × Dequeues w (dequeue w)
  unfolding enqueue dequeue
  queue-Fifo req w n = (
    put w.script n,
    elim (Option-cases (split_last w.queue)) [
      | inl e ↦ nothing e w.script n
      | inr ((ys, y), e) ↦ taken ys y e w.script n
    ],
  )
    where
      put :
          (s : List (Outcome Error))
          → NoLost s
          → Enqueues req w (enqueue req (record w { script = s }))
      put [] l = (refl, refl)
      put (done ∷ os) l = (refl, refl)
      put (refused e ∷ os) l = (refl, refl)
      put (lost e ∷ os) l = absurd l

      found_none :
          (s : List (Outcome Error))
          → next s ≡ done
          → split_last w.queue ≡ none
          → dequeue (record w { script = s }) ≡ (err nothing_queued, record w { script = rest s })
      found_none s e h = ground (arith, e, h)

      found :
          (ys : List OrderRequest) (y : OrderRequest) (s : List (Outcome Error))
          → next s ≡ done
          → split_last w.queue ≡ some (ys, y)
          → dequeue (record w { script = s }) ≡ (ok y, record w { script = rest s; queue = ys })
      found ys y s e h = ground (arith, e, h)

      nothing :
          split_last w.queue ≡ none
          → (s : List (Outcome Error)) → NoLost s
          → Dequeues w (dequeue (record w { script = s }))
      nothing h [] l = subst (Dequeues w) (sym (found_none [] refl h)) (refl, refl)
      nothing h (done ∷ os) l =
          subst (Dequeues w) (sym (found_none (done ∷ os) refl h)) (refl, refl)
      nothing h (refused e ∷ os) l = (refl, refl)
      nothing h (lost e ∷ os) l = absurd l

      taken :
          (ys : List OrderRequest) (y : OrderRequest)
          → split_last w.queue ≡ some (ys, y)
          → (s : List (Outcome Error)) → NoLost s
          → Dequeues w (dequeue (record w { script = s }))
      taken ys y h [] l =
          subst (Dequeues w) (sym (found ys y [] refl h)) (dequeue-split w ys y h, refl)
      taken ys y h (done ∷ os) l =
          subst (Dequeues w) (sym (found ys y (done ∷ os) refl h)) (dequeue-split w ys y h, refl)
      taken ys y h (refused e ∷ os) l = (refl, refl)
      taken ys y h (lost e ∷ os) l = absurd l
