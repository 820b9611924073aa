-- ===== src/Base/Sort.antt =====
-- ORDER BY more than one column: rows are put in by a test, and groups of rows stay together.
use flash_deals.Base.Tests.{leb, if◌then◌else◌, Bool-cases}
use flash_deals.Base.Select.{insert_desc, order_by_desc}
use Prim.Native.Nat.{ℕ, ◌<◌}
use mathlib.Core.Path.{◌≡◌, refl, ap, ◌∙◌}
use mathlib.Core.Logic.{◌≢◌, inl, inr}
use mathlib.Core.Bool.{Bool, true, false}
use mathlib.Core.List.{List, [], ◌∷◌, ◌++◌}
use native.Mathlib.Omega.{arith}

module _ {ℓ} {A : Type ℓ} (before : A → A → Bool) where
  abbrev pub insert_by : A → List A → List A
  insert_by x [] = x ∷ []
  insert_by x (y ∷ ys) = let later = insert_by x ys in if before x y then x ∷ y ∷ ys else y ∷ later

  -- Rows that the test does not tell apart keep their order here; SQL leaves it open.
  abbrev pub sort_by : List A → List A
  sort_by [] = []
  sort_by (x ∷ xs) = insert_by x (sort_by xs)

  abbrev insert_all : List A → List A → List A
  insert_all [] ys = ys
  insert_all (x ∷ xs) ys = insert_by x (insert_all xs ys)

  sort_by-append : (xs ys : List A) → sort_by (xs ++ ys) ≡ insert_all xs (sort_by ys)
  sort_by-append [] ys = refl
  sort_by-append (x ∷ xs) ys = ap (insert_by x) (sort_by-append xs ys)

  -- Every row of the first list comes before the first row of the second.
  abbrev pub Leads : List A → List A → Type 0
  Leads xs [] = Unit {0}
  Leads [] (y ∷ ys) = Unit {0}
  Leads (x ∷ xs) (y ∷ ys) = (before x y ≡ true) × Leads xs (y ∷ ys)

  -- Each row comes before the next.
  abbrev pub InOrder : List A → Type 0
  InOrder [] = Unit {0}
  InOrder (x ∷ []) = Unit {0}
  InOrder (x ∷ y ∷ ys) = (before x y ≡ true) × InOrder (y ∷ ys)

  abbrev pub AllAfter : A → List A → Type 0
  AllAfter x [] = Unit {0}
  AllAfter x (y ∷ ys) = (before x y ≡ false) × AllAfter x ys

  abbrev pub AllBehind : List A → List A → Type 0
  AllBehind [] ys = Unit {0}
  AllBehind (x ∷ xs) ys = AllAfter x ys × AllBehind xs ys

  insert_all_first : (xs ys : List A) → InOrder xs → Leads xs ys → insert_all xs ys ≡ xs ++ ys
  insert_all_first [] ys h l = refl
  insert_all_first (x ∷ []) [] h l = refl
  insert_all_first (x ∷ []) (y ∷ ys) h l = rw (l.0)
  insert_all_first (x ∷ x' ∷ xs) [] h l =
      ap (insert_by x) (insert_all_first (x' ∷ xs) [] h.1 tt) ∙ rw (h.0)
  insert_all_first (x ∷ x' ∷ xs) (y ∷ ys) h l =
      ap (insert_by x) (insert_all_first (x' ∷ xs) (y ∷ ys) h.1 l.1) ∙ rw (h.0)

  insert_by_behind :
      (x : A) (ys zs : List A) → AllAfter x ys → insert_by x (ys ++ zs) ≡ ys ++ insert_by x zs
  insert_by_behind x [] zs h = refl
  insert_by_behind x (y ∷ ys) zs h = rw (h.0) (ap (λ l. y ∷ l) (insert_by_behind x ys zs h.1))

  insert_all_behind :
      (xs ys zs : List A) → AllBehind xs ys → insert_all xs (ys ++ zs) ≡ ys ++ insert_all xs zs
  insert_all_behind [] ys zs h = refl
  insert_all_behind (x ∷ xs) ys zs h =
      ap (insert_by x) (insert_all_behind xs ys zs h.1)
      ∙ insert_by_behind x ys (insert_all xs zs) h.0

module _ {ℓ κ} {A : Type ℓ} {B : Type κ} (f : B → List A) where
  abbrev pub flat_map : List B → List A
  flat_map [] = []
  flat_map (b ∷ bs) = f b ++ flat_map bs

abbrev pub AreApart {ℓ} : {B : Type ℓ} → (B → ℕ) → B → List B → Type 0
AreApart key b [] = Unit {0}
AreApart key b (c ∷ cs) = (key b ≢ key c) × AreApart key b cs

-- No two have the same key.
abbrev pub HaveKeys {ℓ} : {B : Type ℓ} → (B → ℕ) → List B → Type 0
HaveKeys key [] = Unit {0}
HaveKeys key (b ∷ bs) = AreApart key b bs × HaveKeys key bs

AreApart-insert_desc {ℓ} :
    {B : Type ℓ} (key : B → ℕ) (b c : B) (cs : List B)
    → key b ≢ key c
    → AreApart key b cs
    → AreApart key b (insert_desc key c cs)
AreApart-insert_desc key b c [] d h = (d, tt)
AreApart-insert_desc key b c (c' ∷ cs) d h = elim (Bool-cases (leb (key c') (key c))) [
  | inl e ↦ rw e (d, h)
  | inr e ↦ rw e (h.0, AreApart-insert_desc key b c cs d h.1)
]

AreApart-order_by_desc {ℓ} :
    {B : Type ℓ} (key : B → ℕ) (b : B) (cs : List B)
    → AreApart key b cs
    → AreApart key b (order_by_desc key cs)
AreApart-order_by_desc key b [] h = tt
AreApart-order_by_desc key b (c ∷ cs) h =
    AreApart-insert_desc key b c (order_by_desc key cs) h.0 (AreApart-order_by_desc key b cs h.1)

-- Groups of rows, one for each of `B`, whose rows are in order, and where a group with the larger key
-- comes first.
module _ {ℓ κ} {A : Type ℓ} {B : Type κ} (before : A → A → Bool) (key : B → ℕ) (f : B → List A)
    (inside : (b : B) → InOrder before (f b))
    (first : (b c : B) (ds : List B) → key c < key b → Leads before (f b) (f c ++ flat_map f ds))
    (behind : (b c : B) → key b < key c → AllBehind before (f b) (f c)) where
  insert_group :
      (b : B) (cs : List B)
      → AreApart key b cs
      → insert_all before (f b) (flat_map f cs) ≡ flat_map f (insert_desc key b cs)
  insert_group b [] h = insert_all_first before (f b) [] (inside b) (leads_nil (f b))
    where
      leads_nil : (xs : List A) → Leads before xs []
      leads_nil xs = tt
  insert_group b (c ∷ cs) h = elim (Bool-cases (leb (key c) (key b))) [
    | inl e ↦ rw e (
        insert_all_first before (f b) (f c ++ flat_map f cs) (inside b)
          (first b c cs (less e (h.0))))
    | inr e ↦ rw e (
        insert_all_behind before (f b) (f c) (flat_map f cs) (behind b c (ground (arith, e)))
        ∙ ap (λ l. f c ++ l) (insert_group b cs h.1))
  ]
    where
      less : leb (key c) (key b) ≡ true → key b ≢ key c → key c < key b
      less e d = ground (arith, e, d)

  -- The sort of all rows is that of the groups, each as it is.
  pub sort_by-flat_map :
      (bs : List B)
      → HaveKeys key bs
      → sort_by before (flat_map f bs) ≡ flat_map f (order_by_desc key bs)
  sort_by-flat_map [] h = refl
  sort_by-flat_map (b ∷ bs) h =
      sort_by-append before (f b) (flat_map f bs)
      ∙ ap (insert_all before (f b)) (sort_by-flat_map bs h.1)
      ∙ insert_group b (order_by_desc key bs) (AreApart-order_by_desc key b bs h.0)
