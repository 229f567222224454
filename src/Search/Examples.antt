-- ===== src/Search/Examples.antt =====
-- A search run on texts, and the theorem at a matcher that has the documented rules.
use trustedoss_portal.Prelude.{
  ℕ, ◌≡◌, refl, Bool, true, false, ◌&&◌, ◌||◌, [], ◌∷◌, ◌==◌, Text, codes, strip, arith,
}
use trustedoss_portal.Search.{is_wildcard, escape_like, search_pattern}
use trustedoss_portal.Search.Found.{Like, occurs, search_pattern-occurs}

escape_percent : escape_like (codes "100%_\\") ≡ codes "100\\%\\_\\\\"
unfolding escape_like
escape_percent = refl

abbrev same_code : ℕ → ℕ → Bool
same_code a b = a == b

-- A matcher for patterns, by recursion on the pattern and, at a percent sign, on the text.
abbrev any_suffix : (Text → Bool) → Text → Bool
any_suffix test [] = test []
any_suffix test (c ∷ s) = test (c ∷ s) || any_suffix test s

abbrev one_of : (Text → Bool) → (ℕ → Bool) → Text → Bool
one_of rest test [] = false
one_of rest test (c ∷ s) = test c && rest s

abbrev is_end : Text → Bool
is_end [] = true
is_end (c ∷ s) = false

-- The flag: the character before was the escape character.
matcher : Bool → Text → Text → Bool
matcher after_escape [] s = is_end s
matcher true (p ∷ ps) s = one_of (matcher false ps) (λ c. p == c) s
matcher false (p ∷ ps) s = elim (p == b'%') [
  | true ↦ any_suffix (matcher false ps) s
  | false ↦ elim (p == b'\\') [
    | true ↦ matcher true ps s
    | false ↦ one_of (matcher false ps) (λ c. (p == b'_') || (p == c)) s
  ]
]

matcher-plain :
    (p c : ℕ) (ps s : Text)
    → is_wildcard p ≡ false
    → matcher false (p ∷ ps) (c ∷ s) ≡ (same_code p c && matcher false ps s)
unfolding matcher is_wildcard
matcher-plain p c ps s h = ground arith

matcher-plain_end : (p : ℕ) (ps : Text) → is_wildcard p ≡ false → matcher false (p ∷ ps) [] ≡ false
unfolding matcher is_wildcard
matcher-plain_end p ps h = ground arith

matcher-Like : Like same_code (matcher false)
unfolding matcher
matcher-Like = record {
  nothing = refl;
  more = λ c s. refl;
  plain = matcher-plain;
  plain_end = matcher-plain_end;
  escaped = λ p c ps s. refl;
  escaped_end = λ p ps. refl;
  run_end = λ ps. refl;
  run = λ ps s c. refl;
}

search_pattern-occurs_example :
    matcher false (search_pattern (codes " 0% ")) (codes "at 100% cpu")
    ≡ occurs same_code (strip (codes " 0% ")) (codes "at 100% cpu")
search_pattern-occurs_example =
    search_pattern-occurs same_code (matcher false) matcher-Like (codes " 0% ")
      (codes "at 100% cpu")

percent_is_plain : matcher false (search_pattern (codes "1%")) (codes "100") ≡ false
unfolding matcher search_pattern
percent_is_plain = refl
