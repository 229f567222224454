-- ===== src/ApiKeys/Bearer.antt =====
-- apps/backend/services/api_key_service.py: the text of a key, composed and parsed. A text is a
-- list of Latin-1 code points, as the header that carries it is decoded. The random bytes of
-- `secrets` are arguments.
pub mod Format
pub mod Header
use Prim.Native.Nat.{◌%◌}
use trustedoss_portal.Prelude.{
  ℕ, zero, suc, ◌+◌, ◌-◌, ◌*◌, ◌/◌, Bool, true, false, not, ◌&&◌, ◌||◌, Option, none, some, List,
  [], ◌∷◌, ◌++◌, length, leb, ltb, ◌==◌, if◌then◌else◌, Text, codes, text_eq, starts_with, before,
  after, is_blank, lstrip, strip,
}

-- `secrets.token_hex`, of the random bytes.
unfoldable pub hex_digit : ℕ → ℕ
hex_digit d = if ltb d 10 then b'0' + d else b'a' + (d - 10)

unfoldable pub token_hex : List ℕ → Text
unfolding hex_digit
token_hex [] = []
token_hex (b ∷ bs) = hex_digit (b / 16 % 16) ∷ hex_digit (b % 16) ∷ token_hex bs

-- One character of url-safe base64.
base64_char : ℕ → ℕ
base64_char d =
    if ltb d 26
    then b'A' + d
    else if ltb d 52
    then b'a' + (d - 26)
    else if ltb d 62
    then b'0' + (d - 52)
    else if d == 62
    then b'-'
    else b'_'

-- `secrets.token_urlsafe`: three bytes make four characters, and the padding is cut off.
unfoldable pub token_urlsafe : List ℕ → Text
unfolding base64_char
token_urlsafe [] = []
token_urlsafe (a ∷ []) = base64_char (a / 4 % 64) ∷ base64_char (a % 4 * 16) ∷ []
token_urlsafe (a ∷ b ∷ []) =
    base64_char (a / 4 % 64)
    ∷ base64_char (a % 4 * 16 + b / 16 % 16)
    ∷ base64_char (b % 16 * 4)
    ∷ []
token_urlsafe (a ∷ b ∷ c ∷ rest) =
    base64_char (a / 4 % 64)
    ∷ base64_char (a % 4 * 16 + b / 16 % 16)
    ∷ base64_char (b % 16 * 4 + c / 64 % 4)
    ∷ base64_char (c % 64)
    ∷ token_urlsafe rest

abbrev pub public_prefix : Text
public_prefix = codes "tos"

abbrev pub prefix_hex_len : ℕ
prefix_hex_len = 8

-- `_generate_prefix`
unfoldable pub generate_prefix : List ℕ → Text
unfolding token_hex
generate_prefix bytes = public_prefix ++ b'_' ∷ token_hex bytes

-- `_format_plaintext`
unfoldable pub format_plaintext : Text → Text → Text
format_plaintext prefix secret = prefix ++ b'_' ∷ secret

-- `s.split("_", n)`
unfoldable pub split_max : ℕ → Text → List Text
split_max zero s = s ∷ []
split_max (suc n) s = elim (after b'_' s) [
  | none ↦ s ∷ []
  | some rest ↦ before b'_' s ∷ split_max n rest
]

-- `int(s, 16)` succeeds: blanks around, a sign, the mark `0x`, and at least one digit. An
-- underscore between digits is also allowed, and cannot stand in a text that was split at them.
is_hex : ℕ → Bool
is_hex c = (leb b'0' c && leb c b'9') || ((leb b'a' c && leb c b'f') || (leb b'A' c && leb c b'F'))

int_blank : ℕ → Bool
int_blank c = (leb 9 c && leb c 13) || ((c == 32) || ((c == 133) || (c == 160)))

skip_blanks : Text → Text
unfolding int_blank
skip_blanks [] = []
skip_blanks (c ∷ s) = if int_blank c then skip_blanks s else c ∷ s

skip_sign : Text → Text
skip_sign [] = []
skip_sign (c ∷ s) = if (c == b'+') || (c == b'-') then s else c ∷ s

skip_mark : Text → Text
skip_mark [] = []
skip_mark (c ∷ []) = c ∷ []
skip_mark (c ∷ x ∷ s) = if (c == b'0') && ((x == b'x') || (x == b'X')) then s else c ∷ x ∷ s

is_empty : Text → Bool
is_empty [] = true
is_empty (c ∷ s) = false

more_digits : Text → Bool
unfolding is_hex skip_blanks is_empty
more_digits [] = true
more_digits (c ∷ s) = if is_hex c then more_digits s else is_empty (skip_blanks (c ∷ s))

digits : Text → Bool
unfolding is_hex more_digits
digits [] = false
digits (c ∷ s) = is_hex c && more_digits s

unfoldable pub is_int16 : Text → Bool
unfolding digits skip_mark skip_sign skip_blanks
is_int16 s = digits (skip_mark (skip_sign (skip_blanks s)))

-- `parse_bearer`
unfoldable pub parse_parts : List Text → Option (Text × Text)
unfolding is_int16 is_empty
parse_parts (head ∷ hex_part ∷ secret ∷ []) =
    if text_eq head public_prefix
      && ((length hex_part == prefix_hex_len) && (is_int16 hex_part && not (is_empty secret)))
    then some (head ++ b'_' ∷ hex_part, secret)
    else none
parse_parts _ = none

unfoldable pub parse_bearer : Text → Option (Text × Text)
unfolding parse_parts split_max
parse_bearer plaintext =
    if starts_with (codes "tos_") plaintext then parse_parts (split_max 2 plaintext) else none

-- `_bearer_token`, of the header's value: the scheme is one word, the token is what follows it.
word : Text → Text
word [] = []
word (c ∷ s) = if is_blank c then [] else c ∷ word s

after_word : Text → Text
after_word [] = []
after_word (c ∷ s) = if is_blank c then c ∷ s else after_word s

lower : ℕ → ℕ
lower c = if leb b'A' c && leb c b'Z' then c + 32 else c

lower_text : Text → Text
unfolding lower
lower_text [] = []
lower_text (c ∷ s) = lower c ∷ lower_text s

nonempty : Text → Option Text
nonempty [] = none
nonempty (c ∷ s) = some (c ∷ s)

token_of : Text → Option Text
unfolding word after_word lower_text nonempty
token_of auth =
    if text_eq (lower_text (word (lstrip auth))) (codes "bearer")
    then nonempty (strip (lstrip (after_word (lstrip auth))))
    else none

unfoldable pub bearer_token : Option Text → Option Text
unfolding token_of
bearer_token none = none
bearer_token (some auth) = token_of auth
