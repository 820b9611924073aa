-- ===== src/Order/Service/Transaction.antt =====
-- A transaction of the order service, call by call: where no answer is lost, every call but the commit
-- leaves the tables as they are.
pub mod Any
use mathlib.Core.Path.{◌∙◌, subst}
use flash_deals.Base.{
  ◌≡◌, refl, sym, ap, Result, ok, err, Exec, ◌>>=◌, bind_cases, arith, NoLost, NoLost-rest, rest,
}
use flash_deals.Order.State.{OrderWorld, OrderDb, Error, begin_tx, in_tx, commit_tx}
use flash_deals.Order.Service.{Failure}

-- The error that the service makes of a failure of the database.
abbrev pub or_fail : {S A : Type 0} → (Error → Failure) → Exec S Error A → Exec S Failure A
or_fail f m w = let (r, w') = m w in (elim r [ ok a ↦ ok a | err e ↦ err (f e) ], w')

-- What the database calls leave alone.
abbrev pub Beside : {R : Type 0} → OrderWorld R → OrderWorld R → Type 0
Beside w w' = (w'.remote ≡ w.remote) × (w'.net ≡ w.net) × (w'.connected ≡ w.connected)

module _ {R : Type 0} where
  -- A step that has changed no row.
  abbrev pub Idle : OrderWorld R → OrderWorld R → Type 0
  Idle w w' = (w'.db ≡ w.db) × Beside w w' × NoLost w'.script

  pub Idle-trans : (w1 w2 w3 : OrderWorld R) → Idle w1 w2 → Idle w2 w3 → Idle w1 w3
  Idle-trans w1 w2 w3 (d, (r, n, c), _) (d', (r', n', c'), l) =
      (d' ∙ d, (r' ∙ r, n' ∙ n, c' ∙ c), l)

  pub or_fail-ok :
      {A : Type 0} (f : Error → Failure) (m : Exec (OrderWorld R) Error A) (w w' : OrderWorld R)
      (a : A)
      → or_fail f m w ≡ (ok a, w')
      → m w ≡ (ok a, w')
  or_fail-ok f m w w' a h = ground arith

  -- A failure keeps the state of the failing call.
  pub or_fail-err :
      {A : Type 0} (f : Error → Failure) (m : Exec (OrderWorld R) Error A) (w w' : OrderWorld R)
      (e : Failure)
      → or_fail f m w ≡ (err e, w')
      → (x : Error) × (m w ≡ (err x, w'))
  or_fail-err {A} f m w w' e h = go (m w) h
    where
      go :
          (p : Result Error A × OrderWorld R)
          → or_fail f (λ _. p) w ≡ (err e, w')
          → (x : Error) × (p ≡ (err x, w'))
      go (ok a, w1) k = absurd (ground arith)
      go (err x, w1) k = (x, ground arith)

  -- A query in a transaction changes nothing outside it.
  in_tx_lem :
      {A : Type 0} (q : Exec OrderDb Error A) (tx : OrderDb) (w : OrderWorld R)
      → (in_tx q tx w).1 ≡ record w { script = rest w.script }
  in_tx_lem q tx w = ground arith

  pub in_tx-ok :
      {A : Type 0} (q : Exec OrderDb Error A) (tx : OrderDb) (w w' : OrderWorld R) (a : A)
      (tx' : OrderDb)
      → in_tx q tx w ≡ (ok (a, tx'), w')
      → q tx ≡ (ok a, tx')
  in_tx-ok q tx w w' a tx' h = ground arith

  -- After a query in a transaction only the script has moved on.
  pub after_in_tx :
      {A : Type 0} (q : Exec OrderDb Error A) (tx : OrderDb) (w w' : OrderWorld R)
      (r : Result Error (A × OrderDb))
      → in_tx q tx w ≡ (r, w')
      → NoLost w.script
      → (w'.db ≡ w.db) × Beside w w' × NoLost w'.script
  after_in_tx {A} q tx w w' r h n =
      let e : w' ≡ record w { script = rest w.script } =
        sym (ap (λ (p : Result Error (A × OrderDb) × OrderWorld R). p.1) h) ∙ in_tx_lem q tx w in
      rw e (refl, (refl, refl, refl), NoLost-rest w.script n)

  pub begin_tx-Idle :
      (w w' : OrderWorld R) (r : Result Error OrderDb)
      → begin_tx w ≡ (r, w')
      → NoLost w.script
      → Idle w w'
  begin_tx-Idle w w' r h n = ground (arith, NoLost-rest w.script n)

  pub begin_tx-ok : (w w' : OrderWorld R) (tx : OrderDb) → begin_tx w ≡ (ok tx, w') → tx ≡ w.db
  begin_tx-ok w w' tx h = ground arith

  pub commit_tx-ok :
      (tx : OrderDb) (w w' : OrderWorld R) (u : Unit {0})
      → commit_tx tx w ≡ (ok u, w')
      → (w'.db ≡ tx) × Beside w w'
  commit_tx-ok tx w w' u h = ground arith

  pub commit_tx-err :
      (tx : OrderDb) (w w' : OrderWorld R) (e : Error)
      → commit_tx tx w ≡ (err e, w')
      → NoLost w.script
      → Idle w w'
  commit_tx-err tx w w' e h n = ground (arith, NoLost-rest w.script n)

module _ {R B : Type 0} (Q : Result Failure B × OrderWorld R → Type 0) (f : Error → Failure)
    (start w : OrderWorld R) (s : Idle start w) where
  pub begin_tx_cases :
      (k : OrderDb → Exec (OrderWorld R) Failure B)
      → ((w' : OrderWorld R) → Idle start w' → Q (k w.db w'))
      → ((e : Failure) (w' : OrderWorld R) → Idle start w' → Q (err e, w'))
      → Q ((or_fail f begin_tx >>= k) w)
  begin_tx_cases k good bad =
      bind_cases Q (or_fail f begin_tx) k w
        (λ tx w' e.
          let began = or_fail-ok f begin_tx w w' tx e in
          subst (λ t. Q (k t w')) (sym (begin_tx-ok w w' tx began))
            (good w' (Idle-trans start w w' s (begin_tx-Idle w w' (ok tx) began s.2))))
        (λ e w' eq.
          let (x, ex) = or_fail-err f begin_tx w w' e eq in
          bad e w' (Idle-trans start w w' s (begin_tx-Idle w w' (err x) ex s.2)))

  pub in_tx_cases :
      {A : Type 0} (q : Exec OrderDb Error A) (tx : OrderDb)
      (k : A × OrderDb → Exec (OrderWorld R) Failure B)
      → ((a : A) (tx' : OrderDb) (w' : OrderWorld R)
          → q tx ≡ (ok a, tx')
          → Idle start w'
          → Q (k (a, tx') w'))
      → ((e : Failure) (w' : OrderWorld R) → Idle start w' → Q (err e, w'))
      → Q ((or_fail f (in_tx q tx) >>= k) w)
  in_tx_cases q tx k good bad =
      bind_cases Q (or_fail f (in_tx q tx)) k w
        (λ a w' e.
          let ran = or_fail-ok f (in_tx q tx) w w' a e in
          good a.0 a.1 w' (in_tx-ok q tx w w' a.0 a.1 ran)
            (Idle-trans start w w' s (after_in_tx q tx w w' (ok a) ran s.2)))
        (λ e w' eq.
          let (x, ex) = or_fail-err f (in_tx q tx) w w' e eq in
          bad e w' (Idle-trans start w w' s (after_in_tx q tx w w' (err x) ex s.2)))

  pub commit_tx_cases :
      (tx : OrderDb) (k : Unit {0} → Exec (OrderWorld R) Failure B)
      → ((w' : OrderWorld R) → w'.db ≡ tx → Beside start w' → Q (k tt w'))
      → ((e : Failure) (w' : OrderWorld R) → Idle start w' → Q (err e, w'))
      → Q ((or_fail f (commit_tx tx) >>= k) w)
  commit_tx_cases tx k good bad =
      bind_cases Q (or_fail f (commit_tx tx)) k w
        (λ u w' e.
          let (d, (r, n, c)) = commit_tx-ok tx w w' u (or_fail-ok f (commit_tx tx) w w' u e) in
          good w' d (r ∙ s.1.0, n ∙ s.1.1, c ∙ s.1.2))
        (λ e w' eq.
          let (x, ex) = or_fail-err f (commit_tx tx) w w' e eq in
          bad e w' (Idle-trans start w w' s (commit_tx-err tx w w' x ex s.2)))
