-- ===== src/Masking.antt =====
-- apps/backend/core/pii_mask.py: secrets and personal data taken out of a JSON value, and
-- mask_sensitive_columns of core/audit.py. Keys are lower-cased as ASCII text is.
mod Hidden
mod Examples
use trustedoss_portal.Prelude.{
  ℕ, zero, suc, ◌+◌, Bool, true, false, ◌&&◌, ◌||◌, Option, none, some, List, [], ◌∷◌, leb, ltb,
  ◌==◌, if◌then◌else◌, Text, codes, text_eq, starts_with, any,
}
use trustedoss_portal.Json.{
  Json, null, bool, num, str, arr, obj, Items, nil, cons, Fields, end, field,
}

abbrev pub redacted : Json
redacted = str (codes "***")

pub lower : ℕ → ℕ
lower c = if leb b'A' c && leb c b'Z' then c + 32 else c

pub lower_text : Text → Text
unfolding lower
lower_text [] = []
lower_text (c ∷ s) = lower c ∷ lower_text s

-- `token in text`
pub occurs_in : Text → Text → Bool
occurs_in token [] = starts_with token []
occurs_in token (c ∷ s) = starts_with token (c ∷ s) || occurs_in token s

-- `_SENSITIVE_TOKENS`
abbrev pub sensitive_tokens : List Text
sensitive_tokens =
    codes "password"
    ∷ codes "passwd"
    ∷ codes "secret"
    ∷ codes "private_key"
    ∷ codes "privatekey"
    ∷ codes "api_key"
    ∷ codes "apikey"
    ∷ codes "access_token"
    ∷ codes "refresh_token"
    ∷ codes "id_token"
    ∷ codes "bearer"
    ∷ codes "authorization"
    ∷ codes "auth_token"
    ∷ codes "session_id"
    ∷ codes "session_token"
    ∷ codes "session"
    ∷ codes "cookie"
    ∷ codes "jwt"
    ∷ codes "token"
    ∷ codes "client_secret"
    ∷ codes "email"
    ∷ []

-- `_is_sensitive_key`
pub is_sensitive_key : Text → Bool
unfolding lower_text occurs_in
is_sensitive_key key = any (λ token. occurs_in token (lower_text key)) sensitive_tokens

abbrev pub max_depth : ℕ
max_depth = 32

-- `mask_pii` on the levels that are left: at `_depth` d these are 33 - d, and none beyond the limit.
mutual
  unfolding is_sensitive_key

  pub mask : Json → ℕ → Json
  mask null zero = redacted
  mask (bool b) zero = redacted
  mask (num n) zero = redacted
  mask (str s) zero = redacted
  mask (arr xs) zero = redacted
  mask (obj fs) zero = redacted
  mask null (suc levels) = null
  mask (bool b) (suc levels) = bool b
  mask (num n) (suc levels) = num n
  mask (str s) (suc levels) = str s
  mask (arr xs) (suc levels) = arr (mask_items xs levels)
  mask (obj fs) (suc levels) = obj (mask_fields fs levels)

  pub mask_items : Items → ℕ → Items
  mask_items nil levels = nil
  mask_items (cons v vs) levels = cons (mask v levels) (mask_items vs levels)

  pub mask_fields : Fields → ℕ → Fields
  mask_fields end levels = end
  mask_fields (field k v fs) levels =
      field k (if is_sensitive_key k then redacted else mask v levels) (mask_fields fs levels)

pub mask_pii : Json → Json
unfolding mask
mask_pii value = mask value (suc max_depth)
