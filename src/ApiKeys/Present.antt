-- ===== src/ApiKeys/Present.antt =====
-- A key presented in a header: `authenticate_api_key` of
-- apps/backend/services/api_key_service.py, and the dependencies of core/api_key_auth.py. The dummy
-- verification that flattens the timing has no result. `saved` is whether the commit of
-- `last_used_at` succeeds.
use trustedoss_portal.Prelude.{
  Bool, true, false, not, ◌&&◌, Option, none, some, List, [], ◌∷◌, map, select, ◌==◌, is_some,
  if◌then◌else◌, Uuid, Timestamp, Text, find, find_by, update_where,
}
use trustedoss_portal.Model.{Role, ApiKey, User, Membership, Database}
use trustedoss_portal.Security.{CurrentUser, max_role, team_roles_from}
use trustedoss_portal.ApiKeys.{Hasher, verify_password, has_prefix, with_keys}
use trustedoss_portal.ApiKeys.Bearer.{parse_bearer, bearer_token}

-- `key_prefix = … AND revoked_at IS NULL`
abbrev pub live_key : Text → ApiKey → Bool
live_key prefix key = has_prefix prefix key && not (is_some key.revoked_at)

abbrev pub used : Timestamp → ApiKey → ApiKey
used now key = record key { last_used_at = some now }

-- `UPDATE api_keys SET last_used_at = …`
abbrev pub mark_used : Database → Timestamp → ApiKey → Database
mark_used db now key =
    with_keys db (update_where (λ (k : ApiKey). k.id == key.id) (used now) db.api_keys)

abbrev pub touch : Database → Timestamp → Bool → ApiKey → Option ApiKey × Database
touch db now saved key =
    if saved then (some (used now key), mark_used db now key) else (some key, db)

abbrev pub authenticate_row :
    Hasher → Database → Text → Timestamp → Bool → Option ApiKey → Option ApiKey × Database
authenticate_row h db plaintext now saved none = (none, db)
authenticate_row h db plaintext now saved (some key) =
    if verify_password h plaintext key.key_hash then touch db now saved key else (none, db)

abbrev pub authenticate_parsed :
    Hasher → Database → Text → Timestamp → Bool → Option (Text × Text) → Option ApiKey × Database
authenticate_parsed h db plaintext now saved none = (none, db)
authenticate_parsed h db plaintext now saved (some (key_prefix, _secret)) =
    authenticate_row h db plaintext now saved (find_by (live_key key_prefix) db.api_keys)

unfoldable pub authenticate_api_key :
    Hasher → Database → Text → Timestamp → Bool → Option ApiKey × Database
authenticate_api_key h db plaintext now saved =
    authenticate_parsed h db plaintext now saved (parse_bearer plaintext)

-- `get_current_api_key`, of the header's value.
abbrev pub present_token :
    Hasher → Database → Timestamp → Bool → Option Text → Option ApiKey × Database
present_token h db now saved none = (none, db)
present_token h db now saved (some token) =
    if is_some (parse_bearer token) then authenticate_api_key h db token now saved else (none, db)

unfoldable pub get_current_api_key :
    Hasher → Database → Option Text → Timestamp → Bool → Option ApiKey × Database
unfolding authenticate_api_key
get_current_api_key h db header now saved = present_token h db now saved (bearer_token header)

-- `user.memberships`
abbrev pub memberships_of : Database → Uuid → List Membership
memberships_of db user_id = select (λ (m : Membership). m.user_id == user_id) db.memberships

-- The highest role, computed again from the memberships.
unfoldable pub key_role : Bool → List Role → Role
key_role true roles = Role.super_admin
key_role false [] = Role.developer
key_role false (r ∷ rs) = max_role r rs

unfoldable pub principal_of : User → List Membership → CurrentUser
unfolding key_role
principal_of user memberships = record {
  id = user.id;
  email = user.email;
  role = key_role user.is_superuser (map (λ (m : Membership). m.role) memberships);
  team_ids = map (λ (m : Membership). m.team_id) memberships;
  team_roles = team_roles_from [] memberships;
  is_active = user.is_active;
  is_superuser = user.is_superuser;
}

unfoldable pub issuer_principal : Database → Option User → Option CurrentUser
unfolding principal_of
issuer_principal db none = none
issuer_principal db (some user) =
    if user.is_active then some (principal_of user (memberships_of db user.id)) else none

abbrev pub issuer_of : Database → Option Uuid → Option User
issuer_of db none = none
issuer_of db (some id) = find (λ (u : User). u.id) id db.users

unfoldable pub principal_for : Option ApiKey × Database → Option CurrentUser × Database
unfolding issuer_principal
principal_for (none, db) = (none, db)
principal_for (some key, db) = (issuer_principal db (issuer_of db key.created_by_user_id), db)

-- `get_api_key_principal`
unfoldable pub get_api_key_principal :
    Hasher → Database → Option Text → Timestamp → Bool → Option CurrentUser × Database
unfolding get_current_api_key principal_for
get_api_key_principal h db header now saved =
    principal_for (get_current_api_key h db header now saved)
