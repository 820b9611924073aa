-- ===== src/Base/Table.antt =====
-- Tables whose rows are found by a key that is a number: SQL tables by their primary key, and the
-- keys of Redis.
use flash_deals.Base.Tests.{◌==◌, if◌then◌else◌}
use Prim.Native.Nat.{ℕ}
use mathlib.Core.Path.{◌≡◌}
use mathlib.Core.Option.{Option, none, some}
use mathlib.Core.List.{List, [], ◌∷◌}
use native.Mathlib.Omega.{arith}

module _ {ℓ} {A : Type ℓ} where
  -- the row with `key = k`
  abbrev pub find_by : (A → ℕ) → ℕ → List A → Option A
  find_by key k [] = none
  find_by key k (x ∷ xs) = let rest = find_by key k xs in if key x == k then some x else rest

  -- `UPDATE ... WHERE key = k`
  abbrev pub update_by : (A → ℕ) → ℕ → (A → A) → List A → List A
  update_by key k f [] = []
  update_by key k f (x ∷ xs) = (if key x == k then f x else x) ∷ update_by key k f xs

  -- An update that keeps the keys changes the row with that key, and no other.
  pub find_by-update_by :
      (key : A → ℕ) (j k : ℕ) (f : A → A) (xs : List A)
      → ((x : A) → key (f x) ≡ key x)
      → find_by key j (update_by key k f xs) ≡ (
          if j == k
          then (elim (find_by key j xs) [ none ↦ none | some x ↦ some (f x) ])
          else find_by key j xs)
  find_by-update_by key j k f [] h = ground arith
  find_by-update_by key j k f (x ∷ xs) h = ground (arith, h x, find_by-update_by key j k f xs h)
