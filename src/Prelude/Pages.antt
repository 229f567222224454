-- ===== src/Prelude/Pages.antt =====
-- `ORDER BY … LIMIT … OFFSET …`: insertion sort by a Boolean order, and pages of the result.
use Prim.Native.Nat.{ℕ, zero, suc, ◌+◌, ◌-◌, ◌*◌, ◌≤◌, min, max}
use mathlib.Core.Path.{◌≡◌, refl, ap, ◌∙◌}
use mathlib.Core.Bool.{Bool, true, false}
use mathlib.Core.Logic.{inl, inr}
use mathlib.Core.List.{List, [], ◌∷◌, ◌++◌}
use native.Mathlib.Omega.{arith}
use trustedoss_portal.Prelude.Tests.{if◌then◌else◌, bit, Bool-cases}
use trustedoss_portal.Prelude.Lists.{length, count_if, select, All}

module _ {ℓ} {A : Type ℓ} where
  -- `limit(n)` and `offset(n)`
  abbrev pub take : ℕ → List A → List A
  take zero xs = []
  take (suc n) [] = []
  take (suc n) (x ∷ xs) = x ∷ take n xs

  abbrev pub drop : ℕ → List A → List A
  drop zero xs = xs
  drop (suc n) [] = []
  drop (suc n) (x ∷ xs) = drop n xs

  module _ (before : A → A → Bool) where
    unfoldable pub insert_in : A → List A → List A
    insert_in x [] = x ∷ []
    insert_in x (y ∷ ys) = if before x y then x ∷ y ∷ ys else y ∷ insert_in x ys

    -- `before x y`: a row `x` is sorted in front of a row `y`
    unfoldable pub order_by : List A → List A
    unfolding insert_in
    order_by [] = []
    order_by (x ∷ xs) = insert_in x (order_by xs)

    count_if-insert_in :
        (p : A → Bool) (x : A) (xs : List A)
        → count_if p (insert_in x xs) ≡ bit (p x) + count_if p xs
    unfolding insert_in
    count_if-insert_in p x [] = omega arith
    count_if-insert_in p x (y ∷ ys) = elim (Bool-cases (before x y)) [
      | inl first ↦ rw first (omega arith)
      | inr later ↦ rw later (omega (arith, count_if-insert_in p x ys))
    ]

    -- Sorting keeps every row, as often as it was there.
    pub count_if-order_by : (p : A → Bool) (xs : List A) → count_if p (order_by xs) ≡ count_if p xs
    unfolding order_by
    count_if-order_by p [] = refl
    count_if-order_by p (x ∷ xs) =
        omega (arith, count_if-insert_in p x (order_by xs), count_if-order_by p xs)

    All-insert_in {κ} :
        (P : A → Type κ) (x : A) (xs : List A) → P x → All P xs → All P (insert_in x xs)
    unfolding insert_in
    All-insert_in P x [] h k = (h, k)
    All-insert_in P x (y ∷ ys) h k = elim (Bool-cases (before x y)) [
      | inl first ↦ rw first (h, k)
      | inr later ↦ rw later (k.0, All-insert_in P x ys h k.1)
    ]

    pub All-order_by {κ} : (P : A → Type κ) (xs : List A) → All P xs → All P (order_by xs)
    unfolding order_by
    All-order_by P [] h = h
    All-order_by P (x ∷ xs) h = All-insert_in P x (order_by xs) h.0 (All-order_by P xs h.1)

    All-insert_in_inv {κ} :
        (P : A → Type κ) (x : A) (xs : List A) → All P (insert_in x xs) → P x × All P xs
    unfolding insert_in
    All-insert_in_inv P x [] h = h
    All-insert_in_inv P x (y ∷ ys) h = elim (Bool-cases (before x y)) [
      | inl first ↦ rw first at h
      | inr later ↦
          let k : P y × All P (insert_in x ys) = rw later at h in
          let rest = All-insert_in_inv P x ys k.1 in (rest.0, (k.0, rest.1))
    ]

    -- What holds of every sorted row holds of every row.
    pub All-order_by_inv {κ} : (P : A → Type κ) (xs : List A) → All P (order_by xs) → All P xs
    unfolding order_by
    All-order_by_inv P [] h = h
    All-order_by_inv P (x ∷ xs) h =
        let k = All-insert_in_inv P x (order_by xs) h in (k.0, All-order_by_inv P xs k.1)

    insert_in-append :
        (x y : A) (xs : List A)
        → before x y ≡ true
        → insert_in x (xs ++ y ∷ []) ≡ insert_in x xs ++ y ∷ []
    unfolding insert_in
    insert_in-append x y [] h = rw h refl
    insert_in-append x y (z ∷ xs) h = elim (Bool-cases (before x z)) [
      | inl first ↦ rw first refl
      | inr later ↦ rw later (ap (λ zs. z ∷ zs) (insert_in-append x y xs h))
    ]

    -- A row that every row comes before is sorted to the end.
    pub order_by-append :
        (y : A) (xs : List A)
        → All (λ x. before x y ≡ true) xs
        → order_by (xs ++ y ∷ []) ≡ order_by xs ++ y ∷ []
    unfolding order_by insert_in
    order_by-append y [] h = refl
    order_by-append y (x ∷ xs) h =
        ap (insert_in x) (order_by-append y xs h.1) ∙ insert_in-append x y (order_by xs) h.0

  pub All-select_inv {κ} :
      (P : A → Type κ) (p : A → Bool) (xs : List A)
      → All P (select p xs)
      → All (λ x. p x ≡ true → P x) xs
  All-select_inv P p [] h = tt
  All-select_inv P p (x ∷ xs) h = elim (Bool-cases (p x)) [
    | inl picked ↦
        let k : P x × All P (select p xs) = rw picked at h in (λ _. k.0, All-select_inv P p xs k.1)
    | inr skipped ↦ (λ e. cc (e, skipped), All-select_inv P p xs (rw skipped at h))
  ]

  pub All-map {κ ι} :
      (P : A → Type κ) (Q : A → Type ι) (xs : List A) → ((x : A) → P x → Q x) → All P xs → All Q xs
  All-map P Q [] f h = tt
  All-map P Q (x ∷ xs) f h = (f x h.0, All-map P Q xs f h.1)

  pub All-take {κ} : (P : A → Type κ) (n : ℕ) (xs : List A) → All P xs → All P (take n xs)
  All-take P zero xs h = tt
  All-take P (suc n) [] h = tt
  All-take P (suc n) (x ∷ xs) h = (h.0, All-take P n xs h.1)

  pub All-drop {κ} : (P : A → Type κ) (n : ℕ) (xs : List A) → All P xs → All P (drop n xs)
  All-drop P zero xs h = h
  All-drop P (suc n) [] h = h
  All-drop P (suc n) (x ∷ xs) h = All-drop P n xs h.1

  pub All-select {κ} :
      (P : A → Type κ) (p : A → Bool) (xs : List A)
      → ((x : A) → p x ≡ true → P x)
      → All P (select p xs)
  All-select P p [] h = tt
  All-select P p (x ∷ xs) h = elim (Bool-cases (p x)) [
    | inl picked ↦ rw picked (h x picked, All-select P p xs h)
    | inr skipped ↦ rw skipped (All-select P p xs h)
  ]

  take-drop-empty : (n m : ℕ) → take n (drop m []) ≡ []
  take-drop-empty zero zero = refl
  take-drop-empty zero (suc m) = refl
  take-drop-empty (suc n) zero = refl
  take-drop-empty (suc n) (suc m) = refl

  pub length-take-le : (n : ℕ) (xs : List A) → length (take n xs) ≤ n
  length-take-le zero xs = omega arith
  length-take-le (suc n) [] = omega arith
  length-take-le (suc n) (x ∷ xs) = omega (arith, length-take-le n xs)

-- `max(min(size, cap), 1)` and `max(page, 1)`
abbrev pub clamp_size : ℕ → ℕ → ℕ
clamp_size size cap = max (min size cap) 1

-- The rows of a page, from the rows in their order.
unfoldable pub page_of {ℓ} : {A : Type ℓ} → ℕ → ℕ → List A → List A
page_of page size rows = take size (drop ((max page 1 - 1) * size) rows)

pub page_of-empty {ℓ} : {A : Type ℓ} (page size : ℕ) → page_of {A = A} page size [] ≡ []
unfolding page_of
page_of-empty page size = take-drop-empty size ((max page 1 - 1) * size)

pub All-page_of {ℓ κ} :
    {A : Type ℓ} (P : A → Type κ) (page size : ℕ) (rows : List A)
    → All P rows
    → All P (page_of page size rows)
unfolding page_of
All-page_of P page size rows h = All-take P size _ (All-drop P _ rows h)

pub length-page_of {ℓ} :
    {A : Type ℓ} (page size : ℕ) (rows : List A) → length (page_of page size rows) ≤ size
unfolding page_of
length-page_of page size rows = length-take-le size (drop ((max page 1 - 1) * size) rows)

-- The first row of a total and transitive order comes before every row.
module _ {ℓ} {A : Type ℓ} (before : A → A → Bool)
    (total : (x y : A) → before x y ≡ false → before y x ≡ true)
    (trans : (x y z : A) → before x y ≡ true → before y z ≡ true → before x z ≡ true) where
  -- `x` comes before every row of the list
  abbrev pub Leads : A → List A → Type 0
  Leads x = All (λ y. before x y ≡ true)

  Leads-trans : (x y : A) (ys : List A) → before x y ≡ true → Leads y ys → Leads x ys
  Leads-trans x y [] h k = tt
  Leads-trans x y (z ∷ zs) h k = (trans x y z h k.0, Leads-trans x y zs h k.1)

  -- a sorted list: each row leads the rows behind it
  abbrev pub IsOrdered : List A → Type 0
  IsOrdered [] = Unit
  IsOrdered (x ∷ xs) = Leads x xs × IsOrdered xs

  IsOrdered-insert_in : (x : A) (xs : List A) → IsOrdered xs → IsOrdered (insert_in before x xs)
  unfolding insert_in
  IsOrdered-insert_in x [] h = (tt, tt)
  IsOrdered-insert_in x (y ∷ ys) h = elim (Bool-cases (before x y)) [
    | inl first ↦ rw first ((first, Leads-trans x y ys first h.0), h)
    | inr later ↦ rw later (
      All-insert_in before (λ z. before y z ≡ true) x ys (total x y later) h.0,
      IsOrdered-insert_in x ys h.1,
    )
  ]

  pub IsOrdered-order_by : (xs : List A) → IsOrdered (order_by before xs)
  unfolding order_by
  IsOrdered-order_by [] = tt
  IsOrdered-order_by (x ∷ xs) = IsOrdered-insert_in x (order_by before xs) (IsOrdered-order_by xs)
