-- ===== src/Prelude/Outcome.antt =====
-- The result of code that may raise: `E` is the type of the exceptions of one service.
use mathlib.Core.Path.{◌≡◌, refl}
use mathlib.Core.Logic.{◌⊎◌, inl, inr}
use mathlib.Core.Bool.{Bool, true, false}
use mathlib.Core.Option.{Option, none, some}

pub data Result {ℓ κ} (E : Type ℓ) (A : Type κ) : Type (ℓ ⊔ κ) where
  ok : A → Result E A
  err : E → Result E A

infixl 5 ◌>>=◌ ◌>>◌
abbrev pub ◌>>=◌ {ℓ κ ι} :
    {E : Type ℓ} {A : Type κ} {B : Type ι} → Result E A → (A → Result E B) → Result E B
err raised >>= next = err raised
ok value >>= next = next value

abbrev pub ◌>>◌ {ℓ κ} : {E : Type ℓ} {B : Type κ} → Result E (Unit {0}) → Result E B → Result E B
first >> second = first >>= λ _. second

-- `scalar_one_or_none()`, then `if row is None: raise e`
abbrev pub require {ℓ κ} : {E : Type ℓ} {A : Type κ} → Option A → E → Result E A
require none e = err e
require (some a) e = ok a

-- `if not test: raise e`
abbrev pub guard {ℓ} : {E : Type ℓ} → Bool → E → Result E (Unit {0})
guard false raised = err raised
guard true raised = ok tt

-- `session.commit()` after a computation that succeeded: an exception leaves the store as it was.
abbrev pub commit {ℓ κ ι} :
    {E : Type ℓ} {A : Type κ} {S : Type ι} → Result E A → (A → S) → S → Result E A × S
commit (ok a) save s = (ok a, save a)
commit (err e) save s = (err e, s)

abbrev pub is_ok {ℓ κ} : {E : Type ℓ} {A : Type κ} → Result E A → Bool
is_ok (ok a) = true
is_ok (err e) = false

-- Inversion of the steps of a chain that succeeded.
pub >>=-eq-ok {ℓ κ ι} :
    {E : Type ℓ} {A : Type κ} {B : Type ι} (first : Result E A) (next : A → Result E B) {out : B}
    → (first >>= next) ≡ ok out
    → (mid : A) × (first ≡ ok mid) × (next mid ≡ ok out)
>>=-eq-ok (err raised) next h = cc
>>=-eq-ok (ok mid) next h = (mid, refl, h)

pub require-eq-ok {ℓ κ} :
    {E : Type ℓ} {A : Type κ} (o : Option A) (e : E) {a : A} → require o e ≡ ok a → o ≡ some a
require-eq-ok none e h = cc
require-eq-ok (some a) e h = cc

pub guard-eq-ok {ℓ} : {E : Type ℓ} (b : Bool) (e : E) {u : Unit {0}} → guard b e ≡ ok u → b ≡ true
guard-eq-ok true e h = refl
guard-eq-ok false e h = cc

pub commit-eq-ok {ℓ κ ι} :
    {E : Type ℓ} {A : Type κ} {S : Type ι} (r : Result E A) (save : A → S) (s : S) {a : A}
    → (commit r save s).0 ≡ ok a
    → (r ≡ ok a) × ((commit r save s).1 ≡ save a)
commit-eq-ok (ok x) save s h = (h, cc)
commit-eq-ok (err e) save s h = cc

pub commit-eq-err {ℓ κ ι} :
    {E : Type ℓ} {A : Type κ} {S : Type ι} (r : Result E A) (save : A → S) (s : S) {e : E}
    → (commit r save s).0 ≡ err e
    → (commit r save s).1 ≡ s
commit-eq-err (ok x) save s h = cc
commit-eq-err (err e) save s h = refl

-- What a commit keeps, and a refused call keeps for nothing.
pub commit_inv {ℓ κ ι ι'} :
    {E : Type ℓ} {A : Type κ} {S : Type ι} (P : S → Type ι') (r : Result E A) (save : A → S) (s : S)
    → P s
    → ((a : A) → r ≡ ok a → P (save a))
    → P (commit r save s).1
commit_inv P (ok a) save s h keep = keep a refl
commit_inv P (err e) save s h keep = h

-- To split on a computed result and keep the equation.
pub Result-cases {ℓ κ} :
    {E : Type ℓ} {A : Type κ} (r : Result E A) → ((e : E) × (r ≡ err e)) ⊎ ((a : A) × (r ≡ ok a))
Result-cases (err raised) = inl (raised, refl)
Result-cases (ok a) = inr (a, refl)

pub ok_inj {ℓ κ} : {E : Type ℓ} {A : Type κ} {a b : A} → ◌≡◌ {A = Result E A} (ok a) (ok b) → a ≡ b
ok_inj same = cc same
