-- ===== src/Order/Service/Transaction/Any.antt =====
-- A transaction of the order service, call by call, whatever the calls do: answers may be lost.
use mathlib.Core.Path.{◌∙◌}
use flash_deals.Base.{
  ◌≡◌, refl, Result, ok, err, Exec, ◌>>=◌, Outcome, done, refused, lost, next, rest, under, arith,
}
use flash_deals.Order.State.{OrderWorld, OrderDb, Error, begin_tx, in_tx, commit_tx}
use flash_deals.Order.Service.{Failure}
use flash_deals.Order.Service.Transaction.{or_fail}

module _ {R : Type 0} where
  -- The committed tables and the queue are those of the start.
  abbrev pub Unmoved : OrderWorld R → OrderWorld R → Type 0
  Unmoved w w' = (w'.db ≡ w.db) × (w'.queue ≡ w.queue)

  pub Unmoved-trans : (w1 w2 w3 : OrderWorld R) → Unmoved w1 w2 → Unmoved w2 w3 → Unmoved w1 w3
  Unmoved-trans w1 w2 w3 (d, q) (d', q') = (d' ∙ d, q' ∙ q)

  pub in_tx-Unmoved :
      {A : Type 0} (q : Exec OrderDb Error A) (tx : OrderDb) (w w' : OrderWorld R)
      (r : Result Error (A × OrderDb))
      → in_tx q tx w ≡ (r, w')
      → Unmoved w w'
  in_tx-Unmoved q tx w w' r h = (ground (arith, h), ground (arith, h))

module _ {R B : Type 0} (Q : OrderWorld R → Type 0) (f : Error → Failure) (start w : OrderWorld R)
    (s : Unmoved start w) where
  pub begin_tx_any :
      (k : OrderDb → Exec (OrderWorld R) Failure B)
      → ((w' : OrderWorld R) → Unmoved start w' → Q (k w.db w').1)
      → ((w' : OrderWorld R) → Unmoved start w' → Q w')
      → Q ((or_fail f begin_tx >>= k) w).1
  begin_tx_any k good bad = go (next w.script)
    where
      w1 : OrderWorld R
      w1 = record w { script = rest w.script }

      go : (o : Outcome Error) → Q ((or_fail f (λ v. under o (λ u. (ok u.db, u)) w1) >>= k) w).1
      go done = good w1 s
      go (refused e) = bad w1 s
      go (lost e) = bad w1 s

  pub in_tx_any :
      {A : Type 0} (q : Exec OrderDb Error A) (tx : OrderDb)
      (k : A × OrderDb → Exec (OrderWorld R) Failure B)
      → ((a : A) (tx' : OrderDb) (w' : OrderWorld R)
          → q tx ≡ (ok a, tx')
          → Unmoved start w'
          → Q (k (a, tx') w').1)
      → ((w' : OrderWorld R) → Unmoved start w' → Q w')
      → Q ((or_fail f (in_tx q tx) >>= k) w).1
  in_tx_any {A} q tx k good bad = go (next w.script) (q tx) refl
    where
      w1 : OrderWorld R
      w1 = record w { script = rest w.script }

      go :
          (o : Outcome Error) (p : Result Error A × OrderDb)
          → q tx ≡ p
          → Q
              ((or_fail f
                    (λ v. under o (λ u. (elim p.0 [ ok a ↦ ok (a, p.1) | err e ↦ err e ], u)) w1)
                  >>= k)
                w).1
      go done (ok a, tx') e = good a tx' w1 e s
      go done (err x, tx') e = bad w1 s
      go (refused x) p e = bad w1 s
      go (lost x) p e = bad w1 s

  pub commit_tx_any :
      (tx : OrderDb) (k : Unit {0} → Exec (OrderWorld R) Failure B)
      → ((w' : OrderWorld R) → w'.db ≡ tx → w'.queue ≡ start.queue → Q (k tt w').1)
      → ((w' : OrderWorld R) → w'.db ≡ tx → w'.queue ≡ start.queue → Q w')
      → ((w' : OrderWorld R) → Unmoved start w' → Q w')
      → Q ((or_fail f (commit_tx tx) >>= k) w).1
  commit_tx_any tx k good unheard bad = go (next w.script)
    where
      w1 : OrderWorld R
      w1 = record w { script = rest w.script }

      go :
          (o : Outcome Error)
          → Q ((or_fail f (λ v. under o (λ u. (ok tt, record u { db = tx })) w1) >>= k) w).1
      go done = good (record w1 { db = tx }) refl s.1
      go (refused e) = bad w1 s
      go (lost e) = unheard (record w1 { db = tx }) refl s.1
