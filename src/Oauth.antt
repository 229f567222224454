-- ===== src/Oauth.antt =====
-- apps/backend/services/oauth_service.py: the callback of an OAuth login. `decode` is the JWT decoder,
-- none for a bad signature or an expired token; what the provider answers, the random hash and the
-- name and slug of a personal team are fields of the request. `seen` is the snapshot that the reads of
-- the handler meet, `db` the store that its flushes and its commit meet.
pub mod State
pub mod Resolution
pub mod Accounts
pub mod Linked
pub mod Identities
pub mod Logins
pub mod Methods
mod Examples
use trustedoss_portal.Prelude.{
  String, Bool, true, false, not, ◌&&◌, ◌||◌, Option, none, some, List, [], ◌∷◌, leb, ◌==◌, is_some,
  str_eq, if◌then◌else◌, Uuid, Timestamp, any, Result, ok, err, guard, ◌>>=◌, ◌>>◌, require, commit,
  find, find_by, set_row, remove_row, update_where, order_by,
}
use trustedoss_portal.Model.{
  Role, Organization, Team, User, Membership, RefreshToken, OauthProvider, OauthIdentity, Database,
}
use trustedoss_portal.Oauth.State.{
  OauthError, provider_unknown, provider_unavailable, invalid_state, callback_failed, user_inactive,
  no_organization, integrity_error, stale_data, StateClaims, OauthUserInfo, ProviderAnswer,
  disabled, rejected, fetched, Callback, provider_named, claimed, decode_state, user_info_of,
  check_callback,
}
use trustedoss_portal.Oauth.Resolution.{
  is_provider, of_account, find_identity, user_id_of, identity_id_of, has_email, Resolved,
  new_identity, flush, insert_identity, insert_user, insert_team, insert_membership, relinked,
  link_or_relink, new_user, personal_team, team_admin_row, with_membership, with_team, with_user,
  create_user_with_personal_team, by_email, refreshed, without_identity, by_identity, resolved,
  resolve_or_create_user,
}

abbrev pub refresh_row : Callback → User → RefreshToken
refresh_row req user = record {
  id = req.fresh_id;
  user_id = user.id;
  jti = req.fresh_jti;
  parent_jti = none;
  expires_at = req.refresh_expires;
  revoked_at = none;
  revoked_reason = none;
}

-- The stamps of the login and the refresh token, in the commit of `_issue_token_pair_in_session`.
unfoldable pub stamped : Callback → Resolved → Result OauthError Database
stamped req r = do
  user ← require (find user_id_of r.user.id r.flushed.users) stale_data
  identity ← require (find identity_id_of r.identity.id r.flushed.oauth_identities) stale_data
  guard
      (not (
        any (λ (t : RefreshToken). (t.id == req.fresh_id) || (t.jti == req.fresh_jti))
          r.flushed.refresh_tokens))
      integrity_error
  ok record r.flushed {
    users =
        set_row user_id_of r.user.id (record user { last_login_at = some req.now }) r.flushed.users;
    oauth_identities =
        set_row identity_id_of r.identity.id (record identity { last_login_at = some req.now })
          r.flushed.oauth_identities;
    refresh_tokens = refresh_row req r.user ∷ r.flushed.refresh_tokens;
  }

-- A login that has succeeded: the user, and the store that the commit leaves.
pub record Login : Type 0 where
  pub user : User
  pub saved : Database

unfoldable pub log_in : Database → Database → Callback → OauthUserInfo → Result OauthError Login
log_in seen db req info = do
  r ← resolve_or_create_user seen db req info
  guard r.user.is_active user_inactive
  saved ← stamped req r
  ok (record { user = r.user; saved = saved })

-- `complete_oauth`, up to the texts of the tokens and the page to land on.
unfoldable pub complete_oauth :
    (String → Option StateClaims)
    → Database
    → Database
    → Callback
    → Result OauthError Login × Database
complete_oauth decode seen db req =
    commit (do info ← check_callback decode req; log_in seen db req info) (λ login. login.saved) db
