-- ===== src/Webhooks/Signature.antt =====
-- The signature of a delivery.
use Prim.Native.Nat.{◌%◌}
use trustedoss_portal.Prelude.{
  ℕ, ◌/◌, ◌<◌, ◌≡◌, refl, ap, ◌∙◌, true, false, Option, none, some, List, [], ◌∷◌, ◌++◌, All, arith,
  Text, text_eq_refl, text_eq_sound,
}
use trustedoss_portal.ApiKeys.Bearer.{hex_digit, token_hex}
use trustedoss_portal.Webhooks.Payload.{
  signature_prefix, after_prefix, hex_value, is_space, add_byte, from_hex,
}
use trustedoss_portal.Webhooks.Acceptance.{Digests, same_bytes, verify_github_signature}

hex_value-hex_digit : (d : ℕ) → d < 16 → hex_value (hex_digit d) ≡ some d
unfolding hex_value hex_digit
hex_value-hex_digit d h = ground arith

is_space-hex_digit : (d : ℕ) → d < 16 → is_space (hex_digit d) ≡ false
unfolding is_space hex_digit
is_space-hex_digit d h = ground arith

abbrev pub IsByte : ℕ → Type 0
IsByte b = b < 256

from_hex-step :
    (c d : ℕ) (s : Text)
    → is_space c ≡ false
    → from_hex (c ∷ d ∷ s) ≡ add_byte (hex_value c) (hex_value d) (from_hex s)
unfolding from_hex
from_hex-step c d s h = ground (arith, h)

-- `bytes.fromhex(bytes.hex(b))`
from_hex-token_hex : (bytes : List ℕ) → All IsByte bytes → from_hex (token_hex bytes) ≡ some bytes
unfolding token_hex add_byte from_hex
from_hex-token_hex [] h = refl
from_hex-token_hex (b ∷ bs) h =
    from_hex-step (hex_digit (b / 16 % 16)) (hex_digit (b % 16)) (token_hex bs)
      (is_space-hex_digit (b / 16 % 16) (omega arith))
    ∙ rw
        (
          hex_value-hex_digit (b / 16 % 16) (omega arith),
          hex_value-hex_digit (b % 16) (omega arith),
        )
        (rw (from_hex-token_hex bs h.1)
          (ap (λ (n : ℕ). some (n ∷ bs)) (let small : b < 256 = h.0 in omega arith)))

-- A signature is accepted when it is the marker followed by the digest of the body in hexadecimal.
pub verify_github_signature-hex :
    (h : Digests) (body : List ℕ) (secret : Text) (b : ℕ) (bs : List ℕ)
    → h.hmac_sha256 secret body ≡ b ∷ bs
    → All IsByte (b ∷ bs)
    → verify_github_signature h body (signature_prefix ++ token_hex (b ∷ bs)) secret ≡ true
unfolding verify_github_signature after_prefix token_hex
verify_github_signature-hex h body secret b bs digest small =
    ap (λ (received : Option (List ℕ)). same_bytes received (h.hmac_sha256 secret body))
      (from_hex-token_hex (b ∷ bs) small)
    ∙ rw digest (text_eq_refl (b ∷ bs))

same_bytes_sound :
    (o : Option (List ℕ)) (expected : List ℕ) → same_bytes o expected ≡ true → o ≡ some expected
same_bytes_sound none expected h = absurd (cc h)
same_bytes_sound (some received) expected h = ap (λ x. some x) (text_eq_sound received expected h)

-- An accepted signature carries the digest of the body under the secret.
pub verify_github_signature_sound :
    (h : Digests) (body : List ℕ) (header secret : Text)
    → verify_github_signature h body header secret ≡ true
    → from_hex (after_prefix signature_prefix header) ≡ some (h.hmac_sha256 secret body)
unfolding verify_github_signature
verify_github_signature_sound h body header secret accepted =
    same_bytes_sound _ (h.hmac_sha256 secret body) (ground (arith, accepted))
