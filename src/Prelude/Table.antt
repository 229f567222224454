-- ===== src/Prelude/Table.antt =====
-- A table as the list of its rows, read and written by primary key. Every write reaches the one
-- row that the key finds, so counting rows before and after needs no further assumption.
use Prim.Native.Nat.{ℕ, ◌+◌, ◌≤◌}
use mathlib.Core.Path.{◌≡◌, refl, ap, sym, ◌∙◌}
use mathlib.Core.Bool.{Bool, true, false, not, ◌&&◌, ◌||◌}
use mathlib.Core.Option.{Option, none, some}
use mathlib.Core.List.{List, [], ◌∷◌}
use native.Mathlib.Omega.{arith}
use mathlib.Core.Logic.{inl, inr}
use mathlib.Core.Path.{subst}
use trustedoss_portal.Prelude.Tests.{if◌then◌else◌, bit, ◌==◌, ==_refl, Bool-cases, some_inj}
use trustedoss_portal.Prelude.Lists.{count_if, any, All}

module _ {ℓ} {A : Type ℓ} where
  -- the first row that a `WHERE` clause picks
  abbrev pub find_by : (A → Bool) → List A → Option A
  find_by p [] = none
  find_by p (x ∷ xs) = if p x then some x else find_by p xs

  pub any_of_find_by : (p : A → Bool) (xs : List A) → find_by p xs ≡ none → any p xs ≡ false
  any_of_find_by p [] h = refl
  any_of_find_by p (x ∷ xs) h = ground (arith, any_of_find_by p xs)

  pub find_by-holds : (p : A → Bool) (xs : List A) (x : A) → find_by p xs ≡ some x → p x ≡ true
  find_by-holds p [] x h = absurd (ground arith)
  find_by-holds p (y ∷ ys) x h = ground (arith, find_by-holds p ys x)

module _ {ℓ} {A : Type ℓ} (key : A → ℕ) where
  -- `SELECT … WHERE id = k`
  abbrev pub find : ℕ → List A → Option A
  find k = find_by (λ x. key x == k)

  -- `UPDATE` of the row that `find` returns
  unfoldable pub set_row : ℕ → A → List A → List A
  set_row k r [] = []
  set_row k r (x ∷ xs) = if key x == k then r ∷ xs else x ∷ set_row k r xs

  -- `DELETE` of that row
  unfoldable pub remove_row : ℕ → List A → List A
  remove_row k [] = []
  remove_row k (x ∷ xs) = if key x == k then xs else x ∷ remove_row k xs

  pub key-find : (k : ℕ) (xs : List A) (x : A) → find k xs ≡ some x → key x ≡ k
  key-find k xs x h = ground (arith, find_by-holds (λ y. key y == k) xs x)

  pub count_if-set_row :
      (p : A → Bool) (k : ℕ) (old new : A) (xs : List A)
      → find k xs ≡ some old
      → count_if p (set_row k new xs) + bit (p old) ≡ count_if p xs + bit (p new)
  unfolding set_row
  count_if-set_row p k old new [] h = absurd (ground arith)
  count_if-set_row p k old new (x ∷ xs) h = ground (arith, count_if-set_row p k old new xs)

  pub count_if-remove_row_le :
      (p : A → Bool) (k : ℕ) (xs : List A) → count_if p (remove_row k xs) ≤ count_if p xs
  unfolding remove_row
  count_if-remove_row_le p k [] = omega arith
  count_if-remove_row_le p k (x ∷ xs) = elim (Bool-cases (key x == k)) [
    | inl here ↦ rw here (omega arith)
    | inr other ↦ rw other (omega (arith, count_if-remove_row_le p k xs))
  ]

  pub count_if-remove_row :
      (p : A → Bool) (k : ℕ) (old : A) (xs : List A)
      → find k xs ≡ some old
      → count_if p (remove_row k xs) + bit (p old) ≡ count_if p xs
  unfolding remove_row
  count_if-remove_row p k old [] h = absurd (ground arith)
  count_if-remove_row p k old (x ∷ xs) h = ground (arith, count_if-remove_row p k old xs)

  count_if-fewer :
      (p : A → Bool) (k : ℕ) (xs : List A)
      → count_if (λ x. p x && not (key x == k)) xs ≤ count_if p xs
  count_if-fewer p k [] = omega arith
  count_if-fewer p k (x ∷ xs) = ground (arith, count_if-fewer p k xs)

  -- The rows with another key stay, so they are counted again.
  pub count_if-others :
      (p : A → Bool) (k : ℕ) (new : A) (xs : List A)
      → count_if (λ x. p x && not (key x == k)) xs ≤ count_if p (set_row k new xs)
  unfolding set_row
  count_if-others p k new [] = omega arith
  count_if-others p k new (x ∷ xs) =
      ground (arith, count_if-others p k new xs, count_if-fewer p k xs)

  -- Dropping the rows of one key drops no more than their number.
  pub count_if-drop :
      (p : A → Bool) (k : ℕ) (xs : List A)
      → count_if p xs ≤ count_if (λ x. p x && not (key x == k)) xs + count_if (λ x. key x == k) xs
  count_if-drop p k [] = omega arith
  count_if-drop p k (x ∷ xs) = ground (arith, count_if-drop p k xs)

  pub find-set_row_self :
      (k : ℕ) (old new : A) (xs : List A)
      → find k xs ≡ some old
      → key new ≡ k
      → find k (set_row k new xs) ≡ some new
  unfolding set_row
  find-set_row_self k old new [] h e = absurd (ground arith)
  find-set_row_self k old new (x ∷ xs) h e = ground (arith, find-set_row_self k old new xs)

  pub find-set_row_ne :
      (k j : ℕ) (new : A) (xs : List A)
      → key new ≡ k
      → (k == j) ≡ false
      → find j (set_row k new xs) ≡ find j xs
  unfolding set_row
  find-set_row_ne k j new [] e d = refl
  find-set_row_ne k j new (x ∷ xs) e d = ground (arith, find-set_row_ne k j new xs e d)

  -- Writing a row twice is writing it once.
  pub set_row-again :
      (k : ℕ) (new : A) (xs : List A)
      → key new ≡ k
      → set_row k new (set_row k new xs) ≡ set_row k new xs
  unfolding set_row
  set_row-again k new [] e = refl
  set_row-again k new (x ∷ xs) e = elim (Bool-cases (key x == k)) [
    | inl here ↦ rw here (rw (e, ==_refl k) refl)
    | inr other ↦ rw other (rw other (ap (λ ys. x ∷ ys) (set_row-again k new xs e)))
  ]

  pub find-remove_row_ne :
      (k j : ℕ) (xs : List A) → (k == j) ≡ false → find j (remove_row k xs) ≡ find j xs
  unfolding remove_row
  find-remove_row_ne k j [] d = refl
  find-remove_row_ne k j (x ∷ xs) d = ground (arith, find-remove_row_ne k j xs d)

  pub any_of_find :
      (k : ℕ) (xs : List A) (x : A) → find k xs ≡ some x → any (λ y. key y == k) xs ≡ true
  any_of_find k [] x h = absurd (ground arith)
  any_of_find k (y ∷ ys) x h = ground (arith, any_of_find k ys x)

  -- What holds of every row holds of the one that is found, and survives a write that keeps it.
  pub find-All {κ} :
      (P : A → Type κ) (k : ℕ) (x : A) (xs : List A) → find k xs ≡ some x → All P xs → P x
  find-All P k x [] found h = absurd (ground arith)
  find-All P k x (y ∷ ys) found (hy, h) = elim (Bool-cases (key y == k)) [
    | inl here ↦ subst P (some_inj (rw here at found)) hy
    | inr other ↦ find-All P k x ys (rw other at found) h
  ]

  pub set_row-All {κ} :
      (P : A → Type κ) (k : ℕ) (new : A) (xs : List A) → P new → All P xs → All P (set_row k new xs)
  unfolding set_row
  set_row-All P k new [] hn h = tt
  set_row-All P k new (y ∷ ys) hn (hy, h) = elim (Bool-cases (key y == k)) [
    | inl here ↦ rw here (hn, h)
    | inr other ↦ rw other (hy, set_row-All P k new ys hn h)
  ]

  -- A write keeps the keys that are in use.
  pub any-set_row :
      (j k : ℕ) (old new : A) (xs : List A)
      → find k xs ≡ some old
      → key new ≡ key old
      → any (λ x. key x == j) (set_row k new xs) ≡ any (λ x. key x == j) xs
  unfolding set_row
  any-set_row j k old new [] found same = absurd (ground arith)
  any-set_row j k old new (x ∷ xs) found same = elim (Bool-cases (key x == k)) [
    | inl here ↦ let e : x ≡ old = some_inj (rw here at found) in rw (here, same, e) refl
    | inr other ↦
        rw other (ap (λ b. (key x == j) || b) (any-set_row j k old new xs (rw other at found) same))
  ]

pub or_true : (b : Bool) → (b || true) ≡ true
or_true true = refl
or_true false = refl

-- `UPDATE … SET … WHERE p`: every row that the test picks is changed.
module _ {ℓ} {A : Type ℓ} (p : A → Bool) (change : A → A) where
  unfoldable pub update_where : List A → List A
  update_where [] = []
  update_where (x ∷ xs) = (if p x then change x else x) ∷ update_where xs

  pub update_where-All {κ} :
      (P : A → Type κ) (xs : List A)
      → ((x : A) → p x ≡ true → P x → P (change x))
      → All P xs
      → All P (update_where xs)
  unfolding update_where
  update_where-All P [] keep h = tt
  update_where-All P (x ∷ xs) keep h = elim (Bool-cases (p x)) [
    | inl picked ↦ rw picked (keep x picked h.0, update_where-All P xs keep h.1)
    | inr other ↦ rw other (h.0, update_where-All P xs keep h.1)
  ]

  -- Rows are counted as before by a test that does not read what is changed.
  pub count_if-update_where :
      (q : A → Bool) (xs : List A)
      → ((x : A) → q (change x) ≡ q x)
      → count_if q (update_where xs) ≡ count_if q xs
  unfolding update_where
  count_if-update_where q [] same = refl
  count_if-update_where q (x ∷ xs) same = elim (Bool-cases (p x)) [
    | inl picked ↦ rw (picked, same x) (omega (arith, count_if-update_where q xs same))
    | inr other ↦ rw other (omega (arith, count_if-update_where q xs same))
  ]

  pub any-update_where :
      (q : A → Bool) (xs : List A)
      → ((x : A) → q (change x) ≡ q x)
      → any q (update_where xs) ≡ any q xs
  unfolding update_where
  any-update_where q [] same = refl
  any-update_where q (x ∷ xs) same = elim (Bool-cases (p x)) [
    | inl picked ↦ rw (picked, same x) (ap (λ b. q x || b) (any-update_where q xs same))
    | inr other ↦ rw other (ap (λ b. q x || b) (any-update_where q xs same))
  ]

module _ {ℓ} {A : Type ℓ} (key : A → ℕ) where
  pub find-update_where :
      (change : A → A) (k : ℕ) (row : A) (xs : List A)
      → ((x : A) → key (change x) ≡ key x)
      → find key k xs ≡ some row
      → find key k (update_where (λ x. key x == k) change xs) ≡ some (change row)
  unfolding update_where
  find-update_where change k row [] same found = absurd (ground arith)
  find-update_where change k row (x ∷ xs) same found = elim (Bool-cases (key x == k)) [
    | inl here ↦ rw (here, same x, here) (ap (λ y. some (change y)) (some_inj (rw here at found)))
    | inr other ↦ rw (other, other) (find-update_where change k row xs same (rw other at found))
  ]

  pub any_of_found :
      (q : A → Bool) (k : ℕ) (row : A) (xs : List A)
      → find key k xs ≡ some row
      → q row ≡ true
      → any q xs ≡ true
  any_of_found q k row [] found picked = absurd (ground arith)
  any_of_found q k row (x ∷ xs) found picked = elim (Bool-cases (key x == k)) [
    | inl here ↦
        let e : x ≡ row = some_inj (rw here at found) in ap (λ b. b || any q xs) (ap q e ∙ picked)
    | inr other ↦
        ap (λ b. q x || b) (any_of_found q k row xs (rw other at found) picked) ∙ or_true (q x)
  ]

  none_counted {κ} :
      (q : A → Bool) (P : A → Type κ) (xs : List A)
      → count_if q xs ≤ 0
      → All (λ x. q x ≡ true → P x) xs
  none_counted q P [] h = tt
  none_counted q P (x ∷ xs) h = (λ e. absurd (ground (arith, e)), none_counted q P xs (omega arith))

  -- A test that at most one row passes passes only at the row that is found to pass it.
  pub lone-All {κ} :
      (q : A → Bool) (P : A → Type κ) (k : ℕ) (row : A) (xs : List A)
      → find key k xs ≡ some row
      → q row ≡ true
      → count_if q xs ≤ 1
      → P row
      → All (λ x. q x ≡ true → P x) xs
  lone-All q P k row [] found picked lone p = absurd (ground arith)
  lone-All q P k row (x ∷ xs) found picked lone p = elim (Bool-cases (key x == k)) [
    | inl here ↦
        let e : x ≡ row = some_inj (rw here at found) in
        (
          λ _. subst P (sym e) p,
          none_counted q P xs (
              let one : q x ≡ true = subst (λ y. q y ≡ true) (sym e) picked in
              let c : 1 + count_if q xs ≤ 1 = rw one at lone in omega arith),
        )
    | inr other ↦
        let found' : find key k xs ≡ some row = rw other at found in
        let counted = count_if-remove_row key q k row xs found' in
        (
          λ e. absurd (
              let c : 1 + count_if q xs ≤ 1 = rw e at lone in
              let n : count_if q (remove_row key k xs) + 1 ≡ count_if q xs = rw picked at counted in
              omega arith),
          lone-All q P k row xs found' picked (omega arith) p,
        )
  ]
