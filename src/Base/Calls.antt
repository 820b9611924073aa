-- ===== src/Base/Calls.antt =====
-- Calls that change a state and may fail, and calls of other processes.
use mathlib.Core.Path.{ap, ◌≡◌, refl, subst}
use mathlib.Core.List.{List, [], ◌∷◌}

-- The pair `(value, err)` of Go: `err` is nil, or the value is not used.
pub data Result {ℓ κ} (E : Type ℓ) (A : Type κ) : Type (ℓ ⊔ κ) where
  ok : A → Result E A
  err : E → Result E A

-- What is changed before a failure stays changed.
abbrev pub Exec {ℓ} : Type ℓ → Type ℓ → Type ℓ → Type ℓ
Exec S E A = S → Result E A × S

module _ {ℓ} {S E A : Type ℓ} where
  abbrev pub pure : A → Exec S E A
  pure a s = (ok a, s)

  abbrev pub raise : E → Exec S E A
  raise e s = (err e, s)

  abbrev pub lift : Result E A → Exec S E A
  lift r s = (r, s)

-- `if err != nil { ... }`, where the handler sees the error and may go on.
abbrev pub handle {ℓ κ μ} :
    {E : Type ℓ} {A : Type κ} {B : Type μ} → Result E A → (A → B) → (E → B) → B
handle (ok a) f g = f a
handle (err e) f g = g e

infixl 5 ◌>>=◌ ◌>>◌
abbrev pub ◌>>=◌ {ℓ} : {S E A B : Type ℓ} → Exec S E A → (A → Exec S E B) → Exec S E B
◌>>=◌ m f s = let (r, s') = m s in elim r [ ok a ↦ f a s' | err e ↦ (err e, s') ]

abbrev pub ◌>>◌ {ℓ} : {S E A B : Type ℓ} → Exec S E A → Exec S E B → Exec S E B
m >> k = m >>= λ _. k

-- How a call of another process ends: it is done; it is refused and nothing happened; or it is done
-- there and the answer is lost on the way back, so that the caller sees a failure.
pub data Outcome {ℓ} (E : Type ℓ) : Type ℓ where
  done : Outcome E
  refused : E → Outcome E
  lost : E → Outcome E

-- The next outcome of a script; a script that has run out has no more failures.
abbrev pub next {ℓ} : {E : Type ℓ} → List (Outcome E) → Outcome E
next [] = done
next (o ∷ os) = o

abbrev pub rest {ℓ} : {E : Type ℓ} → List (Outcome E) → List (Outcome E)
rest [] = []
rest (o ∷ os) = os

-- The call of `op` under an outcome.
abbrev pub under {ℓ} : {S E A : Type ℓ} → Outcome E → Exec S E A → Exec S E A
under done op s = op s
under (refused e) op s = (err e, s)
under (lost e) op s = let (r, s') = op s in (err e, s')

-- No answer is lost on its way back: each call is done, or refused with no effect.
abbrev pub NoLost {ℓ} : {E : Type ℓ} → List (Outcome E) → Type 0
NoLost [] = Unit {0}
NoLost (done ∷ os) = NoLost os
NoLost (refused e ∷ os) = NoLost os
NoLost (lost e ∷ os) = ⊥

pub NoLost-rest {ℓ} : {E : Type ℓ} (os : List (Outcome E)) → NoLost os → NoLost (rest os)
NoLost-rest [] h = tt
NoLost-rest (done ∷ os) h = h
NoLost-rest (refused e ∷ os) h = h
NoLost-rest (lost e ∷ os) h = absurd h

-- To prove `Q` of a block, prove it of the rest after each success of the first call, and of each
-- failure of that call.
pub bind_cases {ℓ κ} :
    {S E A B : Type ℓ} (Q : Result E B × S → Type κ) (m : Exec S E A) (f : A → Exec S E B) (s : S)
    → ((a : A) (s' : S) → m s ≡ (ok a, s') → Q (f a s'))
    → ((e : E) (s' : S) → m s ≡ (err e, s') → Q (err e, s'))
    → Q ((m >>= f) s)
bind_cases {S = S} {E = E} {A = A} Q m f s good bad = go (m s) refl
  where
    go : (p : Result E A × S) → m s ≡ p → Q (elim p.0 [ ok a ↦ f a p.1 | err e ↦ (err e, p.1) ])
    go (ok a, s') h = good a s' h
    go (err e, s') h = bad e s' h

-- A property of the state goes through a block call by call.
pub bind_keeps {ℓ κ} :
    {S E A B : Type ℓ} (P : S → Type κ) (m : Exec S E A) (f : A → Exec S E B) (s : S)
    → P (m s).1
    → ((a : A) (s' : S) → P s' → P (f a s').1)
    → P ((m >>= f) s).1
bind_keeps {S = S} {E = E} {A = A} P m f s h k =
    bind_cases (λ p. P p.1) m f s (λ a s' e. k a s' (subst (λ (p : Result E A × S). P p.1) e h))
      (λ e s' eq. subst (λ (p : Result E A × S). P p.1) eq h)

-- A block whose first call is known to succeed, or to fail.
pub bind-ok {ℓ} :
    {S E A B : Type ℓ} (m : Exec S E A) (f : A → Exec S E B) (s s' : S) (a : A)
    → m s ≡ (ok a, s')
    → (m >>= f) s ≡ f a s'
bind-ok {S = S} {E = E} {A = A} m f s s' a h =
    ap (λ (p : Result E A × S). elim p.0 [ ok b ↦ f b p.1 | err e ↦ (err e, p.1) ]) h

pub bind-err {ℓ} :
    {S E A B : Type ℓ} (m : Exec S E A) (f : A → Exec S E B) (s s' : S) (e : E)
    → m s ≡ (err e, s')
    → (m >>= f) s ≡ (err e, s')
bind-err {S = S} {E = E} {A = A} m f s s' e h =
    ap (λ (p : Result E A × S). elim p.0 [ ok b ↦ f b p.1 | err x ↦ (err x, p.1) ]) h
