-- ===== src/Prelude/Lists.antt =====
-- Lists measured, counted and filtered by Boolean tests, over the native numbers.
use Prim.Native.Nat.{ℕ, suc, ◌+◌, ◌≤◌}
use mathlib.Core.Path.{◌≡◌, refl, ap}
use mathlib.Core.Logic.{inl, inr}
use mathlib.Core.Bool.{Bool, true, false, ◌||◌}
use mathlib.Core.List.{List, [], ◌∷◌, ◌++◌}
use native.Mathlib.Omega.{arith}
use trustedoss_portal.Prelude.Tests.{if◌then◌else◌, bit, ◌==◌, Bool-cases}

module _ {ℓ} {A : Type ℓ} where
  abbrev pub length : List A → ℕ
  length [] = 0
  length (x ∷ xs) = suc (length xs)

  -- `[x for x in xs if p(x)]`
  abbrev pub select : (A → Bool) → List A → List A
  select p [] = []
  select p (x ∷ xs) = let rest = select p xs in if p x then x ∷ rest else rest

  -- `any(p(x) for x in xs)`
  abbrev pub any : (A → Bool) → List A → Bool
  any p [] = false
  any p (x ∷ xs) = p x || any p xs

  -- `SELECT count(*) … WHERE p`
  abbrev pub count_if : (A → Bool) → List A → ℕ
  count_if p [] = 0
  count_if p (x ∷ xs) = bit (p x) + count_if p xs

  abbrev pub All {κ} : (A → Type κ) → List A → Type κ
  All P [] = Unit
  All P (x ∷ xs) = P x × All P xs

  pub All-append {κ} : (P : A → Type κ) (xs ys : List A) → All P xs → All P ys → All P (xs ++ ys)
  All-append P [] ys h k = k
  All-append P (x ∷ xs) ys h k = (h.0, All-append P xs ys h.1 k)

  pub select-All {κ} :
      (P : A → Type κ) (p : A → Bool) (xs : List A) → All P xs → All P (select p xs)
  select-All P p [] h = tt
  select-All P p (x ∷ xs) h = elim (Bool-cases (p x)) [
    | inl picked ↦ rw picked (h.0, select-All P p xs h.1)
    | inr skipped ↦ rw skipped (select-All P p xs h.1)
  ]

  pub select-append :
      (p : A → Bool) (xs : List A) (y : A)
      → select p (xs ++ y ∷ []) ≡ select p xs ++ (if p y then y ∷ [] else [])
  select-append p [] y = refl
  select-append p (x ∷ xs) y = elim (Bool-cases (p x)) [
    | inl picked ↦ rw picked (ap (λ zs. x ∷ zs) (select-append p xs y))
    | inr skipped ↦ rw skipped (select-append p xs y)
  ]

  pub length-select : (p : A → Bool) (xs : List A) → length (select p xs) ≡ count_if p xs
  length-select p [] = refl
  length-select p (x ∷ xs) = ground (arith, length-select p xs)

  pub count_if_pos : (p : A → Bool) (xs : List A) → any p xs ≡ true → 1 ≤ count_if p xs
  count_if_pos p [] h = absurd (ground arith)
  count_if_pos p (x ∷ xs) h = ground (arith, count_if_pos p xs)

  pub any-eq-false : (p : A → Bool) (xs : List A) → any p xs ≡ false → count_if p xs ≡ 0
  any-eq-false p [] h = refl
  any-eq-false p (x ∷ xs) h = ground (arith, any-eq-false p xs)

-- `x in xs`, for identifiers
abbrev pub contains : ℕ → List ℕ → Bool
contains k = any (λ x. x == k)
