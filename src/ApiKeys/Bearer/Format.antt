-- ===== src/ApiKeys/Bearer/Format.antt =====
-- The text of a key as apps/backend/services/api_key_service.py composes and parses it.
use trustedoss_portal.Prelude.{
  ℕ, suc, ◌*◌, ◌<◌, ◌≡◌, refl, ap, ◌∙◌, inl, inr, true, false, none, some, List, [], ◌∷◌, ◌++◌,
  length, All, arith, Text, codes, starts_with, before, after, Lacks, before-append, after-append,
  before-after, Bool-cases, Option-cases, ◌==◌,
}
use mathlib.Core.List.{append_assoc}
use trustedoss_portal.ApiKeys.Bearer.{
  hex_digit, token_hex, token_urlsafe, public_prefix, generate_prefix, format_plaintext, split_max,
  is_hex, int_blank, skip_blanks, skip_sign, skip_mark, more_digits, digits, is_int16, is_empty,
  parse_parts, parse_bearer,
}

-- A lowercase hexadecimal digit is none of the characters that `int` treats apart.
abbrev IsHexDigit : ℕ → Type 0
IsHexDigit c =
    (is_hex c ≡ true)
    × (int_blank c ≡ false)
    × ((c == b'+') ≡ false)
    × ((c == b'-') ≡ false)
    × ((c == b'x') ≡ false)
    × ((c == b'X') ≡ false)

IsHexDigit-hex_digit : (d : ℕ) → d < 16 → IsHexDigit (hex_digit d)
unfolding hex_digit is_hex int_blank
IsHexDigit-hex_digit d h =
    (ground arith, ground arith, ground arith, ground arith, ground arith, ground arith)

All-token_hex : (bytes : List ℕ) → All IsHexDigit (token_hex bytes)
unfolding token_hex
All-token_hex [] = tt
All-token_hex (b ∷ bs) =
    (IsHexDigit-hex_digit _ (omega arith), (IsHexDigit-hex_digit _ (omega arith), All-token_hex bs))

length-token_hex : (bytes : List ℕ) → length (token_hex bytes) ≡ 2 * length bytes
unfolding token_hex
length-token_hex [] = refl
length-token_hex (b ∷ bs) = omega (arith, length-token_hex bs)

more_digits_lem : (s : Text) → All IsHexDigit s → more_digits s ≡ true
unfolding more_digits
more_digits_lem [] h = refl
more_digits_lem (c ∷ s) h = rw h.0.0 (more_digits_lem s h.1)

-- Two digits and more are a number to `int(s, 16)`.
is_int16_lem : (c d : ℕ) (s : Text) → All IsHexDigit (c ∷ d ∷ s) → is_int16 (c ∷ d ∷ s) ≡ true
unfolding is_int16 skip_blanks skip_sign skip_mark digits
is_int16_lem c d s h =
    let rest = more_digits_lem (d ∷ s) h.1 in
    let (hex, blank, plus, minus, _, _) = h.0 in
    let (_, _, _, _, small, large) = h.1.0 in
    ground (arith, rest, hex, blank, plus, minus, small, large)

Lacks-token_hex : (bytes : List ℕ) → Lacks b'_' (token_hex bytes)
unfolding token_hex hex_digit
Lacks-token_hex [] = tt
Lacks-token_hex (b ∷ bs) = (ground arith, (ground arith, Lacks-token_hex bs))

generated_hex :
    (bytes : List ℕ)
    → length bytes ≡ 4
    → (length (token_hex bytes) ≡ 8) × (is_int16 (token_hex bytes) ≡ true)
unfolding token_hex
generated_hex [] h = absurd (omega arith)
generated_hex (b ∷ bs) h =
    (omega (arith, length-token_hex (b ∷ bs)), is_int16_lem _ _ _ (All-token_hex (b ∷ bs)))

split_max-append :
    (n : ℕ) (s rest : Text)
    → Lacks b'_' s
    → split_max (suc n) (s ++ b'_' ∷ rest) ≡ s ∷ split_max n rest
unfolding split_max
split_max-append n s rest h =
    ground (arith, after-append b'_' s rest h, before-append b'_' s rest h)

urlsafe_nonempty : (noise : List ℕ) → 0 < length noise → is_empty (token_urlsafe noise) ≡ false
unfolding token_urlsafe is_empty
urlsafe_nonempty [] h = absurd (omega arith)
urlsafe_nonempty (a ∷ []) h = refl
urlsafe_nonempty (a ∷ b ∷ []) h = refl
urlsafe_nonempty (a ∷ b ∷ c ∷ noise) h = refl

parse_parts_lem :
    (hex secret : Text)
    → length hex ≡ 8
    → is_int16 hex ≡ true
    → is_empty secret ≡ false
    → parse_parts (public_prefix ∷ hex ∷ secret ∷ []) ≡ some (public_prefix ++ b'_' ∷ hex, secret)
unfolding parse_parts
parse_parts_lem hex secret long number full = rw (long, number, full)

-- A key that the code composes is read back as its two parts: for any four random bytes of the prefix and any non-empty random bytes of the secret, the parser gives the prefix and the secret that were composed, although the secret may itself contain underscores.
pub parse_bearer-format :
    (bytes noise : List ℕ)
    → length bytes ≡ 4
    → 0 < length noise
    → parse_bearer (format_plaintext (generate_prefix bytes) (token_urlsafe noise))
      ≡ some (generate_prefix bytes, token_urlsafe noise)
unfolding parse_bearer format_plaintext generate_prefix
parse_bearer-format bytes noise four some_noise =
    let hex = token_hex bytes in
    let secret = token_urlsafe noise in
    let (long, number) = generated_hex bytes four in
    rw (split_max-append 1 public_prefix (hex ++ b'_' ∷ secret) (refl, (refl, (refl, tt)))) (
      rw (split_max-append 0 hex secret (Lacks-token_hex bytes))
        (parse_parts_lem hex secret long number (urlsafe_nonempty noise some_noise)))

parse_parts_inv :
    (head hex rest k secret : Text)
    → parse_parts (head ∷ hex ∷ rest ∷ []) ≡ some (k, secret)
    → (k ≡ head ++ b'_' ∷ hex) × (secret ≡ rest)
unfolding parse_parts
parse_parts_inv head hex rest k secret h = ground (arith)

split_none : (n : ℕ) (s : Text) → after b'_' s ≡ none → split_max (suc n) s ≡ s ∷ []
unfolding split_max
split_none n s e = ground (arith, e)

split_some :
    (n : ℕ) (s rest : Text)
    → after b'_' s ≡ some rest
    → split_max (suc n) s ≡ before b'_' s ∷ split_max n rest
unfolding split_max
split_some n s rest e = ground (arith, e)

one_part : (s : Text) → parse_parts (s ∷ []) ≡ none
unfolding parse_parts
one_part s = refl

two_parts : (s t : Text) → parse_parts (s ∷ t ∷ []) ≡ none
unfolding parse_parts
two_parts s t = refl

format_parts :
    (plaintext k secret : Text)
    → parse_parts (split_max 2 plaintext) ≡ some (k, secret)
    → format_plaintext k secret ≡ plaintext
unfolding format_plaintext split_max
format_parts plaintext k secret h = elim (Option-cases (after b'_' plaintext)) [
  | inl e ↦
      cc (h, ap (λ (ps : List Text). parse_parts ps) (split_none 1 plaintext e), one_part plaintext)
  | inr (rest, e) ↦ elim (Option-cases (after b'_' rest)) [
    | inl e' ↦ cc (
      h,
      ap (λ (ps : List Text). parse_parts ps)
          (split_some 1 plaintext rest e
            ∙ ap (λ (ps : List Text). before b'_' plaintext ∷ ps) (split_none 0 rest e')),
      two_parts (before b'_' plaintext) rest,
    )
    | inr (last, e') ↦
        let three : parse_parts (before b'_' plaintext ∷ before b'_' rest ∷ last ∷ [])
            ≡ some (k, secret) =
          cc (
            h,
            ap (λ (ps : List Text). parse_parts ps)
                (split_some 1 plaintext rest e
                  ∙ ap (λ (ps : List Text). before b'_' plaintext ∷ ps)
                      (split_some 0 rest last e')),
          ) in
        let (prefix, tail) =
          parse_parts_inv (before b'_' plaintext) (before b'_' rest) last k secret three in
        rw (prefix, tail)
          (append_assoc (before b'_' plaintext) (b'_' ∷ before b'_' rest) (b'_' ∷ last)
            ∙ ap (λ t. before b'_' plaintext ++ b'_' ∷ t) (before-after b'_' rest last e')
            ∙ before-after b'_' plaintext rest e)
  ]
]

-- What is parsed composes to the text that was presented.
pub format-parse_bearer :
    (plaintext k secret : Text)
    → parse_bearer plaintext ≡ some (k, secret)
    → format_plaintext k secret ≡ plaintext
unfolding parse_bearer
format-parse_bearer plaintext k secret h =
    elim (Bool-cases (starts_with (codes "tos_") plaintext)) [
      | inr other ↦ absurd (ground (arith, other))
      | inl marked ↦ format_parts plaintext k secret (rw marked at h)
    ]
