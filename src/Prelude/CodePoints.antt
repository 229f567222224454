-- ===== src/Prelude/CodePoints.antt =====
-- Text by its code points, for code that walks characters: `split`, `strip` and comparisons. A
-- literal is written by `codes`.
use Prim.Native.Nat.{ℕ}
use Prim.Native.Char.{code}
use Prim.Native.String.{String}
use mathlib.Core.Path.{◌≡◌, refl, ap}
use mathlib.Core.Bool.{Bool, true, false, ◌&&◌, ◌||◌}
use mathlib.Core.Option.{Option, none, some}
use mathlib.Core.List.{List, [], ◌∷◌, ◌++◌}
use native.Mathlib.Omega.{arith}
use trustedoss_portal.Prelude.Tests.{leb, ◌==◌, if◌then◌else◌}
use trustedoss_portal.Prelude.Lists.{All}

abbrev pub Text : Type 0
Text = List ℕ

abbrev pub codes : String → Text
codes String.[] = []
codes (String.◌∷◌ c s) = code c ∷ codes s

-- `a == b`
abbrev pub text_eq : Text → Text → Bool
text_eq [] [] = true
text_eq [] (b ∷ bs) = false
text_eq (a ∷ xs) [] = false
text_eq (a ∷ xs) (b ∷ bs) = (a == b) && text_eq xs bs

pub text_eq_refl : (s : Text) → text_eq s s ≡ true
text_eq_refl [] = refl
text_eq_refl (c ∷ s) = ground (arith, text_eq_refl s)

pub text_eq_sound : (s t : Text) → text_eq s t ≡ true → s ≡ t
text_eq_sound [] [] h = refl
text_eq_sound [] (d ∷ t) h = cc
text_eq_sound (c ∷ s) [] h = cc
text_eq_sound (c ∷ s) (d ∷ t) h = ground (arith, text_eq_sound s t)

-- `s.startswith(p)`
abbrev pub starts_with : Text → Text → Bool
starts_with [] s = true
starts_with (p ∷ ps) [] = false
starts_with (p ∷ ps) (c ∷ s) = (p == c) && starts_with ps s

-- What stands before the first separator, and what follows it, if there is one.
abbrev pub before : ℕ → Text → Text
before sep [] = []
before sep (c ∷ s) = if c == sep then [] else c ∷ before sep s

abbrev pub after : ℕ → Text → Option Text
after sep [] = none
after sep (c ∷ s) = if c == sep then some s else after sep s

abbrev pub Lacks : ℕ → Text → Type 0
Lacks sep = All (λ c. (c == sep) ≡ false)

pub before-append : (sep : ℕ) (s rest : Text) → Lacks sep s → before sep (s ++ sep ∷ rest) ≡ s
before-append sep [] rest h = ground arith
before-append sep (c ∷ s) rest h = rw h.0 (ap (λ t. c ∷ t) (before-append sep s rest h.1))

pub after-append : (sep : ℕ) (s rest : Text) → Lacks sep s → after sep (s ++ sep ∷ rest) ≡ some rest
after-append sep [] rest h = ground arith
after-append sep (c ∷ s) rest h = rw h.0 (after-append sep s rest h.1)

pub before-after :
    (sep : ℕ) (s rest : Text) → after sep s ≡ some rest → before sep s ++ sep ∷ rest ≡ s
before-after sep [] rest h = absurd (ground arith)
before-after sep (c ∷ s) rest h = ground (arith, before-after sep s rest)

-- `str.isspace` on Latin-1 text.
abbrev pub is_blank : ℕ → Bool
is_blank c = (leb 9 c && leb c 13) || ((leb 28 c && leb c 32) || ((c == 133) || (c == 160)))

-- `s.lstrip()`
abbrev pub lstrip : Text → Text
lstrip [] = []
lstrip (c ∷ s) = if is_blank c then lstrip s else c ∷ s

-- `s.rstrip()`
abbrev pub push_stripped : ℕ → Text → Text
push_stripped c [] = if is_blank c then [] else c ∷ []
push_stripped c (d ∷ t) = c ∷ d ∷ t

abbrev pub rstrip : Text → Text
rstrip [] = []
rstrip (c ∷ s) = push_stripped c (rstrip s)

abbrev pub strip : Text → Text
strip s = rstrip (lstrip s)

abbrev pub NoBlanks : Text → Type 0
NoBlanks = All (λ c. is_blank c ≡ false)

pub lstrip_lem : (s : Text) → NoBlanks s → lstrip s ≡ s
lstrip_lem [] h = refl
lstrip_lem (c ∷ s) h = rw h.0

pub rstrip_lem : (s : Text) → NoBlanks s → rstrip s ≡ s
rstrip_lem [] h = refl
rstrip_lem (c ∷ []) h = rw h.0
rstrip_lem (c ∷ d ∷ s) h = ap (push_stripped c) (rstrip_lem (d ∷ s) h.1)
