-- ===== src/Sessions.antt =====
-- apps/backend/services/auth_service.py: refresh tokens, issued, rotated, revoked. A request
-- presents what the decoder made of its token: the jti of the claims, or nothing for a token
-- that is missing, malformed, expired or of another type. Minting a token is a fresh jti and an expiry.
-- `seen` is the snapshot that a rotation loaded its row and its user from, without a lock.
mod Chain
mod Rotation
mod SingleUse
mod Reuse
mod Chained
mod Deactivated
mod Examples
use trustedoss_portal.Prelude.{
  ℕ, zero, suc, String, Bool, true, false, not, ◌&&◌, Option, none, some, List, [], ◌∷◌, length,
  leb, ◌==◌, is_some, if◌then◌else◌, Uuid, Timestamp, any, contains, Result, ok, err, find, set_row,
}
use trustedoss_portal.Model.{User, RefreshToken, Database}

-- `out_of_fuel` stands for a chain walk that has not ended; it is never the answer.
pub data AuthError : Type 0 where
  invalid_refresh_token refresh_reuse_detected integrity_error stale_data out_of_fuel : AuthError

abbrev pub jti_of : RefreshToken → Uuid
jti_of t = t.jti

abbrev pub user_id_of : User → Uuid
user_id_of u = u.id

unfoldable pub revoked : String → Timestamp → RefreshToken → RefreshToken
revoked reason now t = record t { revoked_at = some now; revoked_reason = some reason }

abbrev pub revoke_row : String → Timestamp → RefreshToken → List RefreshToken → List RefreshToken
revoke_row reason now t tokens =
    if is_some t.revoked_at then tokens else set_row jti_of t.jti (revoked reason now t) tokens

-- One round of `_revoke_chain`: the row of the link, and the way on to its parent.
abbrev pub chain_link :
    (Option Uuid → List RefreshToken → Option (List RefreshToken))
    → String
    → Timestamp
    → List RefreshToken
    → Option RefreshToken
    → Option (List RefreshToken)
chain_link onward reason now tokens none = some tokens
chain_link onward reason now tokens (some t) = onward t.parent_jti (revoke_row reason now t tokens)

abbrev pub chain_step :
    Bool → List RefreshToken → Option (List RefreshToken) → Option (List RefreshToken)
chain_step true tokens rest = some tokens
chain_step false tokens rest = rest

-- `_revoke_chain`, on fuel; none when the fuel is out.
pub revoke_chain :
    ℕ
    → List Uuid
    → Option Uuid
    → String
    → Timestamp
    → List RefreshToken
    → Option (List RefreshToken)
revoke_chain fuel seen none reason now tokens = some tokens
revoke_chain zero seen (some jti) reason now tokens = none
revoke_chain (suc fuel) seen (some jti) reason now tokens = chain_step (contains jti seen) tokens (
    chain_link (λ parent rows. revoke_chain fuel (jti ∷ seen) parent reason now rows) reason now
      tokens (find jti_of jti tokens))

-- A request to rotate, with what the mint would give it.
pub record TokenRequest : Type 0 where
  pub presented : Option Uuid
  pub now : Timestamp
  pub fresh_id : Uuid
  pub fresh_jti : Uuid
  pub new_expires : Timestamp

abbrev pub child_of : TokenRequest → RefreshToken → RefreshToken
child_of req t = record {
  id = req.fresh_id;
  user_id = t.user_id;
  jti = req.fresh_jti;
  parent_jti = some t.jti;
  expires_at = req.new_expires;
  revoked_at = none;
  revoked_reason = none;
}

abbrev pub with_tokens : Database → List RefreshToken → Database
with_tokens db tokens = record db { refresh_tokens = tokens }

-- The write of a row that was loaded before: the revocation, on the row as it is now.
pub revoke_loaded :
    Database
    → Uuid
    → String
    → Timestamp
    → Option RefreshToken
    → Result AuthError (List RefreshToken)
revoke_loaded db jti reason now none = err stale_data
revoke_loaded db jti reason now (some t) =
    ok (set_row jti_of jti (revoked reason now t) db.refresh_tokens)

-- The answer to a revoked token: the chain is walked and committed first.
abbrev pub reuse : Database → Option (List RefreshToken) → Result AuthError Uuid × Database
reuse db none = (err out_of_fuel, db)
reuse db (some tokens) = (err refresh_reuse_detected, with_tokens db tokens)

abbrev pub expire :
    Database → Result AuthError (List RefreshToken) → Result AuthError Uuid × Database
expire db (err e) = (err e, db)
expire db (ok tokens) = (err invalid_refresh_token, with_tokens db tokens)

abbrev pub mint :
    Database
    → TokenRequest
    → RefreshToken
    → Result AuthError (List RefreshToken)
    → Result AuthError Uuid × Database
mint db req t (err e) = (err e, db)
mint db req t (ok tokens) =
    if any (λ (o : RefreshToken). o.jti == req.fresh_jti) tokens
    then (err integrity_error, db)
    else (ok req.fresh_jti, with_tokens db (child_of req t ∷ tokens))

abbrev pub is_active_user : Option User → Bool
is_active_user none = false
is_active_user (some u) = u.is_active

pub rotate_live :
    Database → Database → TokenRequest → RefreshToken → Result AuthError Uuid × Database
unfolding revoke_loaded
rotate_live seen db req t =
    if leb t.expires_at req.now
    then expire db (revoke_loaded db t.jti "expired" req.now (find jti_of t.jti db.refresh_tokens))
    else (if is_active_user (find user_id_of t.user_id seen.users)
        then mint db req t
            (revoke_loaded db t.jti "rotated" req.now (find jti_of t.jti db.refresh_tokens))
        else (err invalid_refresh_token, db))

pub rotate_row :
    Database → Database → TokenRequest → Option RefreshToken → Result AuthError Uuid × Database
unfolding rotate_live revoke_chain
rotate_row seen db req none = (err invalid_refresh_token, db)
rotate_row seen db req (some t) =
    if is_some t.revoked_at
    then reuse db (
        revoke_chain (suc (length db.refresh_tokens)) [] (some t.jti) "reuse_detected" req.now
          db.refresh_tokens)
    else rotate_live seen db req t

pub rotate_presented :
    Database → Database → TokenRequest → Option Uuid → Result AuthError Uuid × Database
unfolding rotate_row
rotate_presented seen db req none = (err invalid_refresh_token, db)
rotate_presented seen db req (some jti) =
    rotate_row seen db req (find jti_of jti seen.refresh_tokens)

-- `rotate_refresh`; the answer is the jti of the new token.
unfoldable pub rotate_refresh :
    Database → Database → TokenRequest → Result AuthError Uuid × Database
rotate_refresh seen db req = rotate_presented seen db req req.presented

pub revoke_found : Database → Timestamp → Option RefreshToken → Database
revoke_found db now none = db
revoke_found db now (some t) = with_tokens db (revoke_row "logout" now t db.refresh_tokens)

-- `revoke_refresh`: a logout.
pub revoke_refresh : Database → Option Uuid → Timestamp → Database
revoke_refresh db none now = db
revoke_refresh db (some jti) now = revoke_found db now (find jti_of jti db.refresh_tokens)

abbrev pub root_token : User → TokenRequest → RefreshToken
root_token u req = record {
  id = req.fresh_id;
  user_id = u.id;
  jti = req.fresh_jti;
  parent_jti = none;
  expires_at = req.new_expires;
  revoked_at = none;
  revoked_reason = none;
}

pub issue_for : Database → TokenRequest → Option User → Result AuthError Uuid × Database
issue_for db req none = (err stale_data, db)
issue_for db req (some u) =
    if any (λ (o : RefreshToken). o.jti == req.fresh_jti) db.refresh_tokens
    then (err integrity_error, db)
    else (
      ok req.fresh_jti,
      record db {
        users = set_row user_id_of u.id (record u { last_login_at = some req.now }) db.users;
        refresh_tokens = root_token u req ∷ db.refresh_tokens;
      },
    )

-- `issue_token_pair`, for a user that has just logged in.
pub issue_token_pair : Database → Uuid → TokenRequest → Result AuthError Uuid × Database
issue_token_pair db user_id req = issue_for db req (find user_id_of user_id db.users)

pub data Request : Type 0 where
  login : Uuid → TokenRequest → Request
  rotate : Database → TokenRequest → Request
  logout : Option Uuid → Timestamp → Request

pub step : Database → Request → Database
step db (login user_id req) = (issue_token_pair db user_id req).1
step db (rotate seen req) = (rotate_refresh seen db req).1
step db (logout presented now) = revoke_refresh db presented now

pub run : Database → List Request → Database
run db [] = db
run db (q ∷ qs) = run (step db q) qs
