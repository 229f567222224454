-- ===== src/PasswordReset/Consumed.antt =====
-- What consuming a token does.
use trustedoss_portal.Prelude.{
  String, Bool, true, false, not, some, List, Uuid, Timestamp, any, find, none, Option, is_some,
  ◌&&◌, ◌≡◌,
}
use trustedoss_portal.Model.{User, RefreshToken, PasswordResetToken, Database}
use trustedoss_portal.PasswordReset.{user_id_of, is_pending, Consumption, was_read, reset_id_of}

-- Read as live, and live.
abbrev pub is_open_of : Uuid → List RefreshToken → RefreshToken → Bool
is_open_of u seen t = was_read u seen t.id && not (is_some t.revoked_at)

-- The parts of the checks that passed.
record Matched (verify : String → String → Bool) (db : Database) (req : Consumption)
    (matched : PasswordResetToken) (user : User) : Type 0 where
  pending : is_pending req.now matched ≡ true
  verified : verify req.plaintext_token matched.token_hash ≡ true
  found : find user_id_of matched.user_id db.users ≡ some user
  active : user.is_active ≡ true

abbrev pub hash_of : Option User → Option String
hash_of none = none
hash_of (some u) = some u.hashed_password

abbrev pub used_of : Option PasswordResetToken → Option (Option Timestamp)
used_of none = none
used_of (some t) = some t.used_at

abbrev IsSaved : Database → Database → Consumption → Uuid → Uuid → Type 0
IsSaved seen saved req user_id token_id =
    (hash_of (find user_id_of user_id saved.users) ≡ some req.new_hash)
    × (used_of (find reset_id_of token_id saved.password_reset_tokens) ≡ some (some req.now))
    × (any (is_open_of user_id seen.refresh_tokens) saved.refresh_tokens ≡ false)
