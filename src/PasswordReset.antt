-- ===== src/PasswordReset.antt =====
-- apps/backend/services/password_reset_service.py: a reset token is requested, mailed and consumed.
-- The e-mail address is the normalised one; `verify` is the password check of the hashing library,
-- and the hashes that it makes of a token and of a new password are fields of the request.
mod Pending
mod Consumed
mod Examples
use trustedoss_portal.Prelude.{
  ℕ, suc, zero, ◌+◌, String, Bool, true, false, not, ◌&&◌, ◌||◌, Option, none, some, List, [], ◌∷◌,
  map, select, count_if, leb, ltb, ◌==◌, str_eq, is_some, if◌then◌else◌, Uuid, Timestamp, Result,
  ok, err, guard, ◌>>=◌, ◌>>◌, require, commit, find, find_by, set_row, order_by, take, any,
}
use trustedoss_portal.Model.{User, RefreshToken, PasswordResetToken, Database}

-- `PASSWORD_RESET_TTL`, in seconds
abbrev pub password_reset_ttl : ℕ
password_reset_ttl = 3600

abbrev pub user_id_of : User → Uuid
user_id_of u = u.id

abbrev pub reset_id_of : PasswordResetToken → Uuid
reset_id_of t = t.id

-- Unused, not invalidated, not expired.
abbrev pub is_pending : Timestamp → PasswordResetToken → Bool
is_pending now t =
    not (is_some t.used_at) && (not (is_some t.invalidated_at) && ltb now t.expires_at)

abbrev pub is_pending_of : Uuid → Timestamp → PasswordResetToken → Bool
is_pending_of user_id now t = (t.user_id == user_id) && is_pending now t

-- The `WHERE` clause of `_has_recent_token`, with the cutoff on the other side.
abbrev pub is_recent : Uuid → Timestamp → ℕ → PasswordResetToken → Bool
is_recent user_id now cooldown t =
    (t.user_id == user_id)
    && (leb now (t.created_at + cooldown)
        && (not (is_some t.invalidated_at) && not (is_some t.used_at)))

-- `multiple_results` is what `scalar_one_or_none` raises on two rows, and `stale_data` what the flush
-- of a row raises that is gone.
pub data ResetError : Type 0 where
  invalid_reset_token multiple_results stale_data : ResetError

-- `_has_recent_token`, on the number of rows that the clause picks.
abbrev pub one_or_none : ℕ → Result ResetError Bool
one_or_none zero = ok false
one_or_none (suc zero) = ok true
one_or_none (suc (suc n)) = err multiple_results

pub record ResetRequest : Type 0 where
  pub email : String
  pub cooldown : ℕ
  pub now : Timestamp
  pub fresh_id : Uuid
  pub token_hash : String

-- What the request did; the caller of the endpoint sees the same answer for each.
pub data Requested : Type 0 where
  unmatched cooldown_active : Requested
  issued : Uuid → Requested

unfoldable pub invalidated : Timestamp → PasswordResetToken → PasswordResetToken
invalidated now t = record t { invalidated_at = some now }

abbrev pub invalidate_live : Uuid → Timestamp → List PasswordResetToken → List PasswordResetToken
invalidate_live user_id now tokens =
    map (λ t. if is_pending_of user_id now t then invalidated now t else t) tokens

abbrev pub new_reset : ResetRequest → User → PasswordResetToken
new_reset req user = record {
  id = req.fresh_id;
  user_id = user.id;
  token_hash = req.token_hash;
  expires_at = req.now + password_reset_ttl;
  used_at = none;
  invalidated_at = none;
  created_at = req.now;
}

abbrev pub issue : Database → ResetRequest → User → Bool → Requested × Database
issue db req user true = (cooldown_active, db)
issue db req user false = (
  issued user.id,
  record db {
    password_reset_tokens =
        new_reset req user ∷ invalidate_live user.id req.now db.password_reset_tokens;
  },
)

abbrev pub answer_request :
    Database → ResetRequest → User → Result ResetError Bool → Result ResetError Requested × Database
answer_request db req user (err e) = (err e, db)
answer_request db req user (ok recent) =
    let (requested, saved) = issue db req user recent in (ok requested, saved)

pub request_for : Database → ResetRequest → Option User → Result ResetError Requested × Database
request_for db req none = (ok unmatched, db)
request_for db req (some user) =
    if not user.is_active
    then (ok unmatched, db)
    else answer_request db req user
        (one_or_none (count_if (is_recent user.id req.now req.cooldown) db.password_reset_tokens))

pub request_password_reset : Database → ResetRequest → Result ResetError Requested × Database
unfolding request_for
request_password_reset db req =
    request_for db req (find_by (λ u. str_eq u.email req.email) db.users)

pub record Consumption : Type 0 where
  pub plaintext_token : String
  pub new_hash : String
  pub now : Timestamp

-- `ORDER BY created_at DESC LIMIT 256`
abbrev pub latest_first : PasswordResetToken → PasswordResetToken → Bool
latest_first a b = leb b.created_at a.created_at

pub candidates : Timestamp → List PasswordResetToken → List PasswordResetToken
candidates now tokens = take 256 (order_by latest_first (select (is_pending now) tokens))

-- The token that matches, and its user.
pub check_consume :
    (String → String → Bool)
    → Database
    → Consumption
    → Result ResetError (PasswordResetToken × User)
check_consume verify db req = do
  guard (not (str_eq req.plaintext_token "")) invalid_reset_token
  matched ←
      require
        (find_by (λ (t : PasswordResetToken). verify req.plaintext_token t.token_hash)
          (candidates req.now db.password_reset_tokens))
        invalid_reset_token
  user ← require (find user_id_of matched.user_id db.users) invalid_reset_token
  guard user.is_active invalid_reset_token
  ok (matched, user)

abbrev pub is_live_session : Uuid → RefreshToken → Bool
is_live_session user_id t = (t.user_id == user_id) && not (is_some t.revoked_at)

unfoldable pub end_session : Timestamp → RefreshToken → RefreshToken
end_session now t = record t { revoked_at = some now; revoked_reason = some "reuse_detected" }

-- The row is among those that the unlocked `SELECT` of the user's live refresh tokens has read.
abbrev pub was_read : Uuid → List RefreshToken → Uuid → Bool
was_read user_id seen id =
    any (λ (t : RefreshToken). is_live_session user_id t && (t.id == id)) seen

abbrev pub end_sessions :
    Uuid → Timestamp → List RefreshToken → List RefreshToken → List RefreshToken
end_sessions user_id now seen tokens =
    map (λ (t : RefreshToken). if was_read user_id seen t.id then end_session now t else t) tokens

-- The written columns, on the user's row and the token's as they are at the flush. A refresh token
-- is deleted only along with its user.
unfoldable pub save_consume :
    Database → Database → Consumption → User → PasswordResetToken → Database
save_consume seen db req user token = record db {
  users = set_row user_id_of user.id (record user { hashed_password = req.new_hash }) db.users;
  password_reset_tokens =
      set_row reset_id_of token.id (record token { used_at = some req.now })
        db.password_reset_tokens;
  refresh_tokens = end_sessions user.id req.now seen.refresh_tokens db.refresh_tokens;
}

pub flush_consume :
    Database → Database → Consumption → PasswordResetToken × User → Result ResetError Database
flush_consume seen db req (matched, user) = do
  row ← require (find user_id_of user.id db.users) stale_data
  token ← require (find reset_id_of matched.id db.password_reset_tokens) stale_data
  ok (save_consume seen db req row token)

pub try_consume :
    (String → String → Bool)
    → Database
    → Database
    → Consumption
    → Result ResetError ((PasswordResetToken × User) × Database)
try_consume verify seen db req = do
  loaded ← check_consume verify seen req
  saved ← flush_consume seen db req loaded
  ok (loaded, saved)

-- The token, the user and the refresh tokens are read from `seen`, without a lock; `db` is the store
-- that the commit meets. The answer has the rows as they were loaded.
pub consume_reset_token :
    (String → String → Bool)
    → Database
    → Database
    → Consumption
    → Result ResetError ((PasswordResetToken × User) × Database) × Database
consume_reset_token verify seen db req = commit (try_consume verify seen db req) (λ out. out.1) db
