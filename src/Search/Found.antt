-- ===== src/Search/Found.antt =====
-- What a search finds. The database's `ILIKE … ESCAPE '\'` is taken from its documentation: `Like` has
-- the rules of the three special characters, up to the comparison `same` of two characters.
use trustedoss_portal.Prelude.{
  ℕ, ◌≡◌, ap, ◌∙◌, inl, inr, Bool, true, false, ◌&&◌, ◌||◌, [], ◌∷◌, ◌++◌, Bool-cases, Text, strip,
}
use trustedoss_portal.Search.{is_wildcard, escape_like, search_pattern}

-- A pattern matcher with the documented rules of `LIKE`.
pub record Like (same : ℕ → ℕ → Bool) (like : Text → Text → Bool) : Type 0 where
  pub nothing : like [] [] ≡ true
  pub more : (c : ℕ) (s : Text) → like [] (c ∷ s) ≡ false
  pub plain :
      (p c : ℕ) (ps s : Text)
      → is_wildcard p ≡ false
      → like (p ∷ ps) (c ∷ s) ≡ (same p c && like ps s)
  pub plain_end : (p : ℕ) (ps : Text) → is_wildcard p ≡ false → like (p ∷ ps) [] ≡ false
  pub escaped : (p c : ℕ) (ps s : Text) → like (b'\\' ∷ p ∷ ps) (c ∷ s) ≡ (same p c && like ps s)
  pub escaped_end : (p : ℕ) (ps : Text) → like (b'\\' ∷ p ∷ ps) [] ≡ false
  pub run_end : (ps : Text) → like (b'%' ∷ ps) [] ≡ like ps []
  pub run :
      (ps s : Text) (c : ℕ) → like (b'%' ∷ ps) (c ∷ s) ≡ (like ps (c ∷ s) || like (b'%' ∷ ps) s)

module _ (same : ℕ → ℕ → Bool) where
  abbrev pub begins_with : Text → Text → Bool
  begins_with [] s = true
  begins_with (p ∷ ps) [] = false
  begins_with (p ∷ ps) (c ∷ s) = same p c && begins_with ps s

  -- The term stands somewhere in the text.
  abbrev pub occurs : Text → Text → Bool
  occurs term [] = begins_with term []
  occurs term (c ∷ s) = begins_with term (c ∷ s) || occurs term s

  module _ (like : Text → Text → Bool) (rules : Like same like) where
    like-rest : (s : Text) → like (b'%' ∷ []) s ≡ true
    like-rest [] = rules.run_end [] ∙ rules.nothing
    like-rest (c ∷ s) = rules.run [] s c ∙ rw (rules.more c s) (like-rest s)

    -- An escaped term, and anything after it.
    like-escape_like : (term s : Text) → like (escape_like term ++ b'%' ∷ []) s ≡ begins_with term s
    unfolding escape_like
    like-escape_like [] s = like-rest s
    like-escape_like (p ∷ term) [] = elim (Bool-cases (is_wildcard p)) [
      | inl special ↦ rw special (rules.escaped_end p (escape_like term ++ b'%' ∷ []))
      | inr ordinary ↦ rw ordinary (rules.plain_end p (escape_like term ++ b'%' ∷ []) ordinary)
    ]
    like-escape_like (p ∷ term) (c ∷ s) = elim (Bool-cases (is_wildcard p)) [
      | inl special ↦ rw special (
          rules.escaped p c (escape_like term ++ b'%' ∷ []) s
          ∙ ap (λ b. same p c && b) (like-escape_like term s))
      | inr ordinary ↦ rw ordinary (
          rules.plain p c (escape_like term ++ b'%' ∷ []) s ordinary
          ∙ ap (λ b. same p c && b) (like-escape_like term s))
    ]

    like-occurs : (term s : Text) → like (b'%' ∷ (escape_like term ++ b'%' ∷ [])) s ≡ occurs term s
    like-occurs term [] = rules.run_end (escape_like term ++ b'%' ∷ []) ∙ like-escape_like term []
    like-occurs term (c ∷ s) =
        rules.run (escape_like term ++ b'%' ∷ []) s c
        ∙ ap (λ b. b || like (b'%' ∷ (escape_like term ++ b'%' ∷ [])) s)
            (like-escape_like term (c ∷ s))
        ∙ ap (λ b. begins_with term (c ∷ s) || b) (like-occurs term s)

-- With the rules that the database documents for its patterns, a search finds exactly the texts in which the stripped search term stands, character by character: none of its percent signs, underscores and backslashes is a wildcard.
pub search_pattern-occurs :
    (same : ℕ → ℕ → Bool) (like : Text → Text → Bool)
    → Like same like
    → (search s : Text) → like (search_pattern search) s ≡ occurs same (strip search) s
unfolding search_pattern
search_pattern-occurs same like rules search s = like-occurs same like rules (strip search) s
