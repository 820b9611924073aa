-- ===== src/Base/Select.antt =====
-- What the SELECT statements do to a list of rows: WHERE, ORDER BY ... DESC, and LIMIT with OFFSET.
use flash_deals.Base.Tests.{leb, if◌then◌else◌, Bool-cases}
use flash_deals.Base.Lists.{length, take, drop}
use flash_deals.Base.Int.{ℤ, pos, negsuc, ◌≤ℤ◌}
use Prim.Native.Nat.{ℕ, zero, suc, ◌+◌, ◌≤◌}
use mathlib.Core.Path.{◌≡◌, refl, sym, ap, ◌∙◌, subst}
use mathlib.Core.Logic.{◌⊎◌, inl, inr}
use mathlib.Core.Bool.{Bool, true}
use mathlib.Core.Option.{Option, none, some, some-injective}
use mathlib.Core.List.{List, [], ◌∷◌, ◌++◌}
use native.Mathlib.Nat.{zero-add, suc-add}
use native.Mathlib.Omega.{arith}

module _ {ℓ} {A : Type ℓ} where
  abbrev pub filter_by : (A → Bool) → List A → List A
  filter_by p [] = []
  filter_by p (x ∷ xs) = let others = filter_by p xs in if p x then x ∷ others else others

  abbrev pub insert_desc : (A → ℕ) → A → List A → List A
  insert_desc key x [] = x ∷ []
  insert_desc key x (y ∷ ys) =
      let later = insert_desc key x ys in if leb (key y) (key x) then x ∷ y ∷ ys else y ∷ later

  -- The largest key first. Rows with the same key keep their order here; SQL leaves it open.
  abbrev pub order_by_desc : (A → ℕ) → List A → List A
  order_by_desc key [] = []
  order_by_desc key (x ∷ xs) = insert_desc key x (order_by_desc key xs)

  -- PostgreSQL refuses a LIMIT or an OFFSET below zero.
  abbrev pub page : ℤ → ℤ → List A → Option (List A)
  page (pos limit) (pos offset) xs = some (take limit (drop offset xs))
  page (negsuc _) _ xs = none
  page (pos _) (negsuc _) xs = none

  abbrev pub AtMost : (A → ℕ) → ℕ → List A → Type 0
  AtMost key n [] = Unit {0}
  AtMost key n (x ∷ xs) = (key x ≤ n) × AtMost key n xs

  abbrev pub IsDescending : (A → ℕ) → List A → Type 0
  IsDescending key [] = Unit {0}
  IsDescending key (x ∷ xs) = AtMost key (key x) xs × IsDescending key xs

  AtMost-le : (key : A → ℕ) (m n : ℕ) (xs : List A) → m ≤ n → AtMost key m xs → AtMost key n xs
  AtMost-le key m n [] h k = tt
  AtMost-le key m n (x ∷ xs) h (k, ks) = (omega arith, AtMost-le key m n xs h ks)

  AtMost-insert_desc :
      (key : A → ℕ) (n : ℕ) (x : A) (ys : List A)
      → key x ≤ n
      → AtMost key n ys
      → AtMost key n (insert_desc key x ys)
  AtMost-insert_desc key n x [] h k = (h, tt)
  AtMost-insert_desc key n x (y ∷ ys) h (k, ks) = elim (Bool-cases (leb (key y) (key x))) [
    | inl e ↦ rw e (h, (k, ks))
    | inr e ↦ rw e (k, AtMost-insert_desc key n x ys h ks)
  ]

  IsDescending-insert_desc :
      (key : A → ℕ) (x : A) (ys : List A)
      → IsDescending key ys
      → IsDescending key (insert_desc key x ys)
  IsDescending-insert_desc key x [] h = (tt, tt)
  IsDescending-insert_desc key x (y ∷ ys) (b, h) = elim (Bool-cases (leb (key y) (key x))) [
    | inl e ↦ rw e ((ground arith, AtMost-le key (key y) (key x) ys (ground arith) b), (b, h))
    | inr e ↦
        rw e (
          AtMost-insert_desc key (key y) x ys (ground arith) b,
          IsDescending-insert_desc key x ys h,
        )
  ]

  pub IsDescending-order_by_desc :
      (key : A → ℕ) (xs : List A) → IsDescending key (order_by_desc key xs)
  IsDescending-order_by_desc key [] = tt
  IsDescending-order_by_desc key (x ∷ xs) =
      IsDescending-insert_desc key x (order_by_desc key xs) (IsDescending-order_by_desc key xs)

  length-insert_desc :
      (key : A → ℕ) (x : A) (ys : List A) → length (insert_desc key x ys) ≡ suc (length ys)
  length-insert_desc key x [] = refl
  length-insert_desc key x (y ∷ ys) = ground (arith, length-insert_desc key x ys)

  pub length-order_by_desc : (key : A → ℕ) (xs : List A) → length (order_by_desc key xs) ≡ length xs
  length-order_by_desc key [] = refl
  length-order_by_desc key (x ∷ xs) =
      length-insert_desc key x (order_by_desc key xs) ∙ ap suc (length-order_by_desc key xs)

  filter_by-insert_desc :
      (key : A → ℕ) (p : A → Bool) (x : A) (ys : List A)
      → length (filter_by p (insert_desc key x ys)) ≡ length (filter_by p (x ∷ ys))
  filter_by-insert_desc key p x [] = refl
  filter_by-insert_desc key p x (y ∷ ys) = ground (arith, filter_by-insert_desc key p x ys)

  -- The same rows: every test holds of as many.
  pub filter_by-order_by_desc :
      (key : A → ℕ) (p : A → Bool) (xs : List A)
      → length (filter_by p (order_by_desc key xs)) ≡ length (filter_by p xs)
  filter_by-order_by_desc key p [] = refl
  filter_by-order_by_desc key p (x ∷ xs) =
      filter_by-insert_desc key p x (order_by_desc key xs)
      ∙ ground (arith, filter_by-order_by_desc key p xs)

  take-nil : (n : ℕ) → (◌≡◌ {A = List A}) (take n []) []
  take-nil zero = refl
  take-nil (suc n) = refl

  drop-nil : (n : ℕ) → (◌≡◌ {A = List A}) (drop n []) []
  drop-nil zero = refl
  drop-nil (suc n) = refl

  drop-add : (c a : ℕ) (xs : List A) → drop (c + a) xs ≡ drop a (drop c xs)
  drop-add zero a xs = rw zero-add
  drop-add (suc c) a [] = rw suc-add (sym (drop-nil a))
  drop-add (suc c) a (x ∷ xs) = rw suc-add (drop-add c a xs)

  take-add : (a b : ℕ) (xs : List A) → take a xs ++ take b (drop a xs) ≡ take (a + b) xs
  take-add zero b xs = rw zero-add
  take-add (suc a) b [] = rw (suc-add, take-nil)
  take-add (suc a) b (x ∷ xs) = rw suc-add (ap (λ l. x ∷ l) (take-add a b xs))

  -- A page that is long enough has all rows.
  pub take-length : (n : ℕ) (xs : List A) → length xs ≤ n → length (take n xs) ≡ length xs
  take-length zero [] h = refl
  take-length zero (x ∷ xs) h = absurd (omega arith)
  take-length (suc n) [] h = refl
  take-length (suc n) (x ∷ xs) h = ap suc (take-length n xs (omega arith))

  take-bounded : (n : ℕ) (xs : List A) → (length (take n xs) ≤ n) × (length (take n xs) ≤ length xs)
  take-bounded zero xs = (omega arith, omega arith)
  take-bounded (suc n) [] = (omega arith, omega arith)
  take-bounded (suc n) (x ∷ xs) = ground (arith, take-bounded n xs)

  drop-bounded : (n : ℕ) (xs : List A) → length (drop n xs) ≤ length xs
  drop-bounded zero xs = omega arith
  drop-bounded (suc n) [] = omega arith
  drop-bounded (suc n) (x ∷ xs) = ground (arith, drop-bounded n xs)

  -- A page has no more rows than the limit, nor than there are.
  pub page-bounded :
      (limit offset : ℤ) (xs rows : List A)
      → page limit offset xs ≡ some rows
      → (pos (length rows) ≤ℤ limit) × (length rows ≤ length xs)
  page-bounded (pos l) (pos o) xs rows e =
      subst (λ ys. (pos (length ys) ≤ℤ pos l) × (length ys ≤ length xs))
        (some-injective (take l (drop o xs)) rows e)
        (ground (arith, take-bounded l (drop o xs), drop-bounded o xs))
  page-bounded (negsuc l) o xs rows e = ground (arith, e)
  page-bounded (pos l) (negsuc o) xs rows e = ground (arith, e)

  pub page_none :
      (limit offset : ℤ) (xs : List A)
      → page limit offset xs ≡ none
      → (limit ≤ℤ negsuc 0) ⊎ (offset ≤ℤ negsuc 0)
  page_none (pos l) (pos o) xs e = ground (arith, e)
  page_none (negsuc l) o xs e = inl (grind arith)
  page_none (pos l) (negsuc o) xs e = inr (grind arith)

  -- Two pages, one after the other, are one longer page.
  pub take-append-drop :
      (a b c : ℕ) (xs : List A)
      → take a (drop c xs) ++ take b (drop (c + a) xs) ≡ take (a + b) (drop c xs)
  take-append-drop a b c xs = rw drop-add (take-add a b (drop c xs))

module _ {ℓ κ} {A : Type ℓ} (P : A → Type κ) where
  abbrev pub AllOf : List A → Type κ
  AllOf [] = Unit {κ}
  AllOf (x ∷ xs) = P x × AllOf xs

  pub AllOf-filter_by :
      (p : A → Bool) (xs : List A) → ((x : A) → p x ≡ true → P x) → AllOf (filter_by p xs)
  AllOf-filter_by p [] h = tt
  AllOf-filter_by p (x ∷ xs) h = elim (Bool-cases (p x)) [
    | inl e ↦ rw e (h x e, AllOf-filter_by p xs h)
    | inr e ↦ rw e (AllOf-filter_by p xs h)
  ]

  AllOf-insert_desc :
      (key : A → ℕ) (x : A) (ys : List A) → P x → AllOf ys → AllOf (insert_desc key x ys)
  AllOf-insert_desc key x [] h k = (h, tt)
  AllOf-insert_desc key x (y ∷ ys) h (k, ks) = elim (Bool-cases (leb (key y) (key x))) [
    | inl e ↦ rw e (h, (k, ks))
    | inr e ↦ rw e (k, AllOf-insert_desc key x ys h ks)
  ]

  pub AllOf-order_by_desc : (key : A → ℕ) (xs : List A) → AllOf xs → AllOf (order_by_desc key xs)
  AllOf-order_by_desc key [] h = tt
  AllOf-order_by_desc key (x ∷ xs) (h, hs) =
      AllOf-insert_desc key x (order_by_desc key xs) h (AllOf-order_by_desc key xs hs)

  AllOf-take : (n : ℕ) (xs : List A) → AllOf xs → AllOf (take n xs)
  AllOf-take zero xs h = tt
  AllOf-take (suc n) [] h = tt
  AllOf-take (suc n) (x ∷ xs) (h, hs) = (h, AllOf-take n xs hs)

  AllOf-drop : (n : ℕ) (xs : List A) → AllOf xs → AllOf (drop n xs)
  AllOf-drop zero xs h = h
  AllOf-drop (suc n) [] h = tt
  AllOf-drop (suc n) (x ∷ xs) (h, hs) = AllOf-drop n xs hs

  abbrev pub OfPage : Option (List A) → Type κ
  OfPage none = Unit {κ}
  OfPage (some rows) = AllOf rows

  -- What holds of all rows holds of a page.
  pub OfPage-page : (limit offset : ℤ) (xs : List A) → AllOf xs → OfPage (page limit offset xs)
  OfPage-page (pos l) (pos o) xs h = AllOf-take l (drop o xs) (AllOf-drop o xs h)
  OfPage-page (negsuc l) o xs h = tt
  OfPage-page (pos l) (negsuc o) xs h = tt
