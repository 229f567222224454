-- ===== src/ApiKeys/Bearer/Header.antt =====
-- The header that carries a key, as core/api_key_auth.py reads it.
use Prim.Native.Nat.{◌%◌}
use trustedoss_portal.Prelude.{
  ℕ, ◌+◌, ◌*◌, ◌/◌, ◌<◌, ◌≡◌, refl, ap, ◌∙◌, false, some, List, [], ◌∷◌, ◌++◌, All-append, arith,
  Text, codes, NoBlanks, is_blank, lstrip, rstrip, lstrip_lem, rstrip_lem,
}
use trustedoss_portal.ApiKeys.Bearer.{
  hex_digit, token_hex, token_urlsafe, base64_char, generate_prefix, format_plaintext, bearer_token,
  token_of, word, after_word, lower_text, lower, nonempty,
}

not_blank_hex : (d : ℕ) → d < 16 → is_blank (hex_digit d) ≡ false
unfolding hex_digit
not_blank_hex d h = ground arith

NoBlanks-token_hex : (bytes : List ℕ) → NoBlanks (token_hex bytes)
unfolding token_hex
NoBlanks-token_hex [] = tt
NoBlanks-token_hex (b ∷ bs) = (
  not_blank_hex (b / 16 % 16) (omega arith),
  (not_blank_hex (b % 16) (omega arith), NoBlanks-token_hex bs),
)

not_blank_base64 : (d : ℕ) → d < 64 → is_blank (base64_char d) ≡ false
unfolding base64_char
not_blank_base64 d h = ground arith

NoBlanks-token_urlsafe : (noise : List ℕ) → NoBlanks (token_urlsafe noise)
unfolding token_urlsafe
NoBlanks-token_urlsafe [] = tt
NoBlanks-token_urlsafe (a ∷ []) =
    (not_blank_base64 (a / 4 % 64) (omega arith), (not_blank_base64 (a % 4 * 16) (omega arith), tt))
NoBlanks-token_urlsafe (a ∷ b ∷ []) = (
  not_blank_base64 (a / 4 % 64) (omega arith),
  (
    not_blank_base64 (a % 4 * 16 + b / 16 % 16) (omega arith),
    (not_blank_base64 (b % 16 * 4) (omega arith), tt),
  ),
)
NoBlanks-token_urlsafe (a ∷ b ∷ c ∷ noise) = (
  not_blank_base64 (a / 4 % 64) (omega arith),
  (
    not_blank_base64 (a % 4 * 16 + b / 16 % 16) (omega arith),
    (
      not_blank_base64 (b % 16 * 4 + c / 64 % 4) (omega arith),
      (not_blank_base64 (c % 64) (omega arith), NoBlanks-token_urlsafe noise),
    ),
  ),
)

NoBlanks-plaintext :
    (bytes noise : List ℕ)
    → NoBlanks (format_plaintext (generate_prefix bytes) (token_urlsafe noise))
unfolding format_plaintext generate_prefix
NoBlanks-plaintext bytes noise = (
  refl,
  (
    refl,
    (
      refl,
      (
        refl,
        All-append (λ c. is_blank c ≡ false) (token_hex bytes) (b'_' ∷ token_urlsafe noise)
            (NoBlanks-token_hex bytes) (refl, NoBlanks-token_urlsafe noise),
      ),
    ),
  ),
)

-- A token without blanks is read back from its header.
header_token :
    (c : ℕ) (s : Text)
    → NoBlanks (c ∷ s)
    → bearer_token (some (codes "Bearer " ++ c ∷ s)) ≡ some (c ∷ s)
unfolding bearer_token token_of word after_word lower_text lower nonempty
header_token c s h = ap nonempty (
    ap (λ t. rstrip (lstrip t)) (lstrip_lem (c ∷ s) h)
    ∙ ap rstrip (lstrip_lem (c ∷ s) h)
    ∙ rstrip_lem (c ∷ s) h)

pub bearer_token-plaintext :
    (bytes noise : List ℕ)
    → bearer_token
        (some (codes "Bearer " ++ format_plaintext (generate_prefix bytes) (token_urlsafe noise)))
      ≡ some (format_plaintext (generate_prefix bytes) (token_urlsafe noise))
unfolding format_plaintext generate_prefix
bearer_token-plaintext bytes noise = header_token _ _ (NoBlanks-plaintext bytes noise)
