-- ===== src/Oauth/Resolution.antt =====
-- apps/backend/services/oauth_service.py: the user of an external account, found or created. `seen` is
-- the snapshot that the reads meet, `db` the store that the flushes meet.
use trustedoss_portal.Prelude.{
  String, Bool, true, false, not, ◌&&◌, Option, none, some, ◌∷◌, ◌==◌, is_some, str_eq,
  if◌then◌else◌, Uuid, any, Result, ok, err, ◌>>=◌, require, find, find_by, remove_row,
  update_where, order_by,
}
use trustedoss_portal.Model.{
  Role, Organization, Team, User, Membership, OauthProvider, OauthIdentity, Database,
}
use trustedoss_portal.AdminTeams.Teams.{older, first_of, same_slug}
use trustedoss_portal.Oauth.State.{
  OauthError, missing_greenlet, callback_failed, no_organization, integrity_error, OauthUserInfo,
  Callback,
}

abbrev pub is_provider : OauthProvider → OauthProvider → Bool
is_provider OauthProvider.github OauthProvider.github = true
is_provider OauthProvider.google OauthProvider.google = true
is_provider _ _ = false

-- `uq_oauth_identities_provider_pid`
abbrev pub of_account : OauthProvider → String → OauthIdentity → Bool
of_account provider provider_user_id i =
    is_provider i.provider provider && str_eq i.provider_user_id provider_user_id

abbrev pub find_identity : Database → OauthUserInfo → Option OauthIdentity
find_identity db info = find_by (of_account info.provider info.provider_user_id) db.oauth_identities

abbrev pub user_id_of : User → Uuid
user_id_of u = u.id

abbrev pub identity_id_of : OauthIdentity → Uuid
identity_id_of i = i.id

abbrev pub has_email : String → User → Bool
has_email email u = str_eq u.email email

-- What a branch gives: the rows of the session and the store after its flushes.
pub record Resolved : Type 0 where
  pub user : User
  pub identity : OauthIdentity
  pub flushed : Database

abbrev pub new_identity : Callback → OauthUserInfo → User → OauthIdentity
new_identity req info user = record {
  id = req.fresh_id;
  user_id = user.id;
  provider = info.provider;
  provider_user_id = info.provider_user_id;
  email = info.email;
  avatar_url = info.avatar_url;
  linked_at = req.now;
  last_login_at = none;
}

-- A flush of one row; an `IntegrityError` of the constraints is `none`.
abbrev pub flush : Bool → Database → Option Database
flush false db = none
flush true db = some db

unfoldable pub insert_identity : Database → OauthIdentity → Option Database
insert_identity db i =
    flush
      (not (any (λ (j : OauthIdentity). j.id == i.id) db.oauth_identities)
        && (not (any (of_account i.provider i.provider_user_id) db.oauth_identities)
            && any (λ (u : User). u.id == i.user_id) db.users))
      (record db { oauth_identities = i ∷ db.oauth_identities })

abbrev pub insert_user : Database → User → Option Database
insert_user db u =
    flush
      (not (any (λ (v : User). v.id == u.id) db.users) && not (any (has_email u.email) db.users))
      (record db { users = u ∷ db.users })

abbrev pub insert_team : Database → Team → Option Database
insert_team db t =
    flush
      (not (any (λ (s : Team). s.id == t.id) db.teams)
        && (any (λ (o : Organization). o.id == t.organization_id) db.organizations
            && not (any (same_slug t.organization_id t.slug) db.teams)))
      (record db { teams = t ∷ db.teams })

-- The user is new, so `uq_memberships_user_team` holds.
abbrev pub insert_membership : Database → Membership → Option Database
insert_membership db m =
    flush (not (any (λ (n : Membership). n.id == m.id) db.memberships))
      (record db { memberships = m ∷ db.memberships })

-- The second look after a link that another request was faster with.
abbrev pub relinked : Database → OauthUserInfo → Result OauthError Resolved
relinked db info = do
  existing ← require (find_identity db info) callback_failed
  re_user ← require (find user_id_of existing.user_id db.users) callback_failed
  ok (record { user = re_user; identity = existing; flushed = db })

abbrev pub link_or_relink :
    Database → Callback → OauthUserInfo → User → Option Database → Result OauthError Resolved
link_or_relink db req info user none = relinked db info
link_or_relink db req info user (some saved) =
    ok (record { user = user; identity = new_identity req info user; flushed = saved })

abbrev pub new_user : Callback → OauthUserInfo → User
new_user req info = record {
  id = req.fresh_id;
  email = info.email;
  full_name = info.full_name;
  hashed_password = req.random_hash;
  is_active = true;
  is_superuser = false;
  last_login_at = none;
  created_at = req.now;
  updated_at = req.now;
}

abbrev pub personal_team : Callback → Organization → String → Team
personal_team req org slug = record {
  id = req.fresh_id;
  organization_id = org.id;
  name = req.team_name;
  slug = slug;
  description = req.team_description;
  created_at = req.now;
  updated_at = req.now;
}

abbrev pub team_admin_row : Callback → Membership
team_admin_row req = record {
  id = req.fresh_id;
  user_id = req.fresh_id;
  team_id = req.fresh_id;
  role = Role.team_admin;
  updated_at = req.now;
}

-- The end of `_create_user_with_personal_team`: the membership and the identity.
abbrev pub with_membership : Callback → OauthUserInfo → Database → Result OauthError Resolved
with_membership req info db = do
  joined ← require (insert_membership db (team_admin_row req)) integrity_error
  saved ←
      require (insert_identity joined (new_identity req info (new_user req info))) integrity_error
  ok (record {
    user = new_user req info;
    identity = new_identity req info (new_user req info);
    flushed = saved;
  })

-- The team. A taken slug is answered by a rollback, which expires the organization, and the fallback
-- reads `org.id` next: on the async session that raises.
abbrev pub with_team : Callback → OauthUserInfo → Option Database → Result OauthError Resolved
with_team req info (some saved) = with_membership req info saved
with_team req info none = err missing_greenlet

abbrev pub with_user :
    Database
    → Callback
    → OauthUserInfo
    → Organization
    → Option Database
    → Result OauthError Resolved
with_user db req info org (some saved) =
    with_team req info (insert_team saved (personal_team req org req.team_slug))
with_user db req info org none = do
  existing ← require (find_by (has_email info.email) db.users) callback_failed
  saved ← require (insert_identity db (new_identity req info existing)) integrity_error
  ok (record { user = existing; identity = new_identity req info existing; flushed = saved })

-- `_create_user_with_personal_team`
abbrev pub create_user_with_personal_team :
    Database → Database → Database → Callback → OauthUserInfo → Result OauthError Resolved
create_user_with_personal_team seen base db req info = do
  org ← require (first_of (order_by older seen.organizations)) no_organization
  with_user base req info org (insert_user db (new_user req info))

-- The branches (b) and (c); `base` is the store that a rollback returns to.
abbrev pub by_email :
    Database
    → Database
    → Database
    → Callback
    → OauthUserInfo
    → Option User
    → Result OauthError Resolved
by_email seen base db req info (some user) =
    link_or_relink base req info user (insert_identity db (new_identity req info user))
by_email seen base db req info none = create_user_with_personal_team seen base db req info

abbrev pub refreshed : OauthUserInfo → OauthIdentity → OauthIdentity
refreshed info i = record i {
  email = info.email;
  avatar_url = if is_some info.avatar_url then info.avatar_url else i.avatar_url;
}

abbrev pub without_identity : Uuid → Database → Database
without_identity id db = record db {
  oauth_identities = remove_row identity_id_of id db.oauth_identities;
}

-- The branch (a), for an identity and its user.
abbrev pub by_identity :
    Database
    → Database
    → Callback
    → OauthUserInfo
    → OauthIdentity
    → Option User
    → Result OauthError Resolved
by_identity seen db req info i (some user) = ok (record {
  user = user;
  identity = refreshed info i;
  flushed = record db {
    oauth_identities =
        update_where (λ (j : OauthIdentity). j.id == i.id) (refreshed info) db.oauth_identities;
  };
})
by_identity seen db req info i none =
    by_email seen db (without_identity i.id db) req info (find_by (has_email info.email) seen.users)

abbrev pub resolved :
    Database
    → Database
    → Callback
    → OauthUserInfo
    → Option OauthIdentity
    → Result OauthError Resolved
resolved seen db req info (some i) =
    by_identity seen db req info i (find user_id_of i.user_id seen.users)
resolved seen db req info none =
    by_email seen db db req info (find_by (has_email info.email) seen.users)

-- `_resolve_or_create_user`
unfoldable pub resolve_or_create_user :
    Database → Database → Callback → OauthUserInfo → Result OauthError Resolved
resolve_or_create_user seen db req info = resolved seen db req info (find_identity seen info)
