-- ===== src/Oauth/Identities.antt =====
-- apps/backend/services/oauth_identity_service.py: a user's external accounts listed and unlinked, and
-- runs of callbacks and unlinks. `hash` is the digest of the provider's id. The audit row is the one
-- that the service writes itself; the row of core/audit.py for the delete is left out.
use trustedoss_portal.Prelude.{
  ℕ, String, Bool, not, ◌&&◌, ◌||◌, Option, some, List, [], ◌∷◌, ◌++◌, select, ltb, leb, ◌==◌,
  str_eq, Uuid, Timestamp, count_if, Result, ok, guard, ◌>>=◌, ◌>>◌, require, commit, find, find_by,
  remove_row, order_by,
}
use trustedoss_portal.Model.{
  User, OauthProvider, OauthIdentity, Database, AuditLog, AuditAction, DiffValue,
}
use trustedoss_portal.Oauth.State.{StateClaims, Callback}
use trustedoss_portal.Oauth.Resolution.{identity_id_of, user_id_of}
use trustedoss_portal.Oauth.{complete_oauth}

pub data IdentityError : Type 0 where
  identity_not_found unlink_blocks_login : IdentityError

abbrev pub of_user : Uuid → OauthIdentity → Bool
of_user user_id i = i.user_id == user_id

-- `ORDER BY linked_at ASC, id ASC`
abbrev pub oldest_link_first : OauthIdentity → OauthIdentity → Bool
oldest_link_first a b =
    ltb a.linked_at b.linked_at || ((a.linked_at == b.linked_at) && leb a.id b.id)

pub list_user_oauth_identities : Database → Uuid → List OauthIdentity
list_user_oauth_identities db user_id =
    order_by oldest_link_first (select (of_user user_id) db.oauth_identities)

-- `_count_identities`
abbrev pub count_identities : Database → Uuid → ℕ
count_identities db user_id = count_if (of_user user_id) db.oauth_identities

-- `bool(user.hashed_password)`: the hash need not be that of a password that anybody knows.
abbrev pub has_password : User → Bool
has_password user = not (str_eq user.hashed_password "")

pub record Unlink : Type 0 where
  pub user_id : Uuid
  pub identity_id : Uuid
  pub audit_id : Uuid
  pub now : Timestamp

abbrev pub is_owned : Unlink → OauthIdentity → Bool
is_owned req i = (i.id == req.identity_id) && of_user req.user_id i

-- The guards, under the lock of the user's row.
unfoldable pub check_unlink : Database → Unlink → Result IdentityError OauthIdentity
check_unlink db req = do
  identity ← require (find_by (is_owned req) db.oauth_identities) identity_not_found
  user ← require (find user_id_of req.user_id db.users) identity_not_found
  guard (has_password user || ltb 1 (count_identities db req.user_id)) unlink_blocks_login
  ok identity

abbrev pub provider_name : OauthProvider → String
provider_name OauthProvider.github = "github"
provider_name OauthProvider.google = "google"

abbrev pub unlink_audit : (String → String) → Unlink → OauthIdentity → AuditLog
unlink_audit hash req i = record {
  id = req.audit_id;
  actor_user_id = some req.user_id;
  action = AuditAction.identity_unlinked;
  target_table = "oauth_identities";
  target_id = some req.identity_id;
  diff =
      ("provider", DiffValue.text (provider_name i.provider))
      ∷ ("provider_user_id_hash", DiffValue.text (hash i.provider_user_id))
      ∷ [];
  created_at = req.now;
}

abbrev pub unlinked : (String → String) → Unlink → Database → OauthIdentity → Database
unlinked hash req db i = record db {
  oauth_identities = remove_row identity_id_of i.id db.oauth_identities;
  audit_logs = db.audit_logs ++ unlink_audit hash req i ∷ [];
}

unfoldable pub unlink_oauth_identity :
    (String → String) → Database → Unlink → Result IdentityError OauthIdentity × Database
unlink_oauth_identity hash db req = commit (check_unlink db req) (unlinked hash req db) db

-- One request; a callback carries the snapshot that its reads meet.
pub data Request : Type 0 where
  callback : Database → Callback → Request
  unlink : Unlink → Request

unfoldable pub step :
    (String → Option StateClaims) → (String → String) → Database → Request → Database
step decode hash db (callback seen req) = (complete_oauth decode seen db req).1
step decode hash db (unlink req) = (unlink_oauth_identity hash db req).1

unfoldable pub run :
    (String → Option StateClaims) → (String → String) → Database → List Request → Database
unfolding step
run decode hash db [] = db
run decode hash db (q ∷ qs) = run decode hash (step decode hash db q) qs
