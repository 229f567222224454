-- ===== src/AdminUsers.antt =====
-- apps/backend/services/admin_user_service.py: role changes, activation and deactivation by a super
-- admin, and the trigger on `users` that alembic/versions/0013 installs. A request is checked on
-- the snapshot that it loaded (`seen`), counts the super admins under their row locks (in `db`), and is
-- written to `db`, attribute by attribute, as the unit of work writes what has changed. The trigger
-- takes no lock and counts in rows of its own (`trigger_view`); the refresh tokens that a
-- deactivation ends are those that it read.
pub mod Rows
mod Writes
mod Seats
mod Agreement
mod Members
pub mod Tokens
mod Examples
use trustedoss_portal.Prelude.{
  ℕ, Bool, true, false, not, ◌&&◌, ◌||◌, Option, none, some, List, [], ◌∷◌, map, leb, ltb, ◌==◌,
  is_some, if◌then◌else◌, Uuid, Timestamp, any, count_if, Result, ok, err, guard, ◌>>=◌, ◌>>◌,
  require, commit, find, find_by, set_row, ◌≡◌,
}
use trustedoss_portal.Model.{Role, super_admin, Team, User, Membership, RefreshToken, Database}
use trustedoss_portal.Security.{CurrentUser}
use trustedoss_portal.AdminUsers.Rows.{
  AdminUserError, admin_user_not_found, last_super_admin_protected, cannot_modify_self,
  invalid_role_assignment, team_not_found, stale_data, integrity_error, user_id_of,
  membership_id_of, count_active_super_admins, UserChange, update_user,
}

pub record RoleUpdate : Type 0 where
  pub actor : CurrentUser
  pub user_id : Uuid
  pub role : Role
  pub team_id : Option Uuid
  pub now : Timestamp
  pub fresh_id : Uuid
  pub trigger_view : List User

pub data MembershipChange : Type 0 where
  untouched : MembershipChange
  insert : Membership → MembershipChange
  assign : Uuid → MembershipChange

abbrev pub is_member_of : Uuid → Uuid → Membership → Bool
is_member_of user_id team_id m = (m.user_id == user_id) && (m.team_id == team_id)

abbrev pub upsert : RoleUpdate → Uuid → Option Membership → MembershipChange
upsert req team_id none = insert record {
  id = req.fresh_id;
  user_id = req.user_id;
  team_id = team_id;
  role = req.role;
  updated_at = req.now;
}
upsert req team_id (some existing) = assign existing.id

-- An attribute set to a value that it already has is not written.
abbrev pub changed_to : Bool → Bool → Option Bool
changed_to true false = some true
changed_to false true = some false
changed_to _ _ = none

promotion : RoleUpdate → User → UserChange × MembershipChange
promotion req user = (
  record {
    is_superuser = changed_to true user.is_superuser;
    is_active = none;
    updated_at = req.now;
  },
  untouched,
)

demotion :
    Database → Database → RoleUpdate → User → Result AdminUserError (UserChange × MembershipChange)
demotion seen db req user = do
  team_id ← require req.team_id invalid_role_assignment
  guard (any (λ (t : Team). t.id == team_id) seen.teams) team_not_found
  guard (not (user.is_superuser && (user.is_active && leb (count_active_super_admins db) 1)))
      last_super_admin_protected
  ok (
    record {
      is_superuser = changed_to false user.is_superuser;
      is_active = none;
      updated_at = req.now;
    },
    upsert req team_id (find_by (is_member_of req.user_id team_id) seen.memberships),
  )

pub role_change :
    Database
    → Database
    → RoleUpdate
    → User
    → Role
    → Result AdminUserError (UserChange × MembershipChange)
role_change seen db req user super_admin = ok (promotion req user)
role_change seen db req user _ = demotion seen db req user

-- The checks of `update_user_role`, and what they leave to write.
pub check_role :
    Database → Database → RoleUpdate → Result AdminUserError (UserChange × MembershipChange)
check_role seen db req = do
  guard (not (req.user_id == req.actor.id)) cannot_modify_self
  user ← require (find user_id_of req.user_id seen.users) admin_user_not_found
  role_change seen db req user req.role

-- The flush of the membership, under its foreign key and its unique constraints.
pub write_membership :
    Database → RoleUpdate → MembershipChange → Result AdminUserError (List Membership)
write_membership db req untouched = ok db.memberships
write_membership db req (insert m) = do
  guard (any (λ (t : Team). t.id == m.team_id) db.teams) team_not_found
  guard (not (any (λ (o : Membership). o.id == m.id) db.memberships)) integrity_error
  guard (not (any (is_member_of m.user_id m.team_id) db.memberships)) integrity_error
  ok (m ∷ db.memberships)
write_membership db req (assign id) = do
  old ← require (find membership_id_of id db.memberships) stale_data
  ok (
      set_row membership_id_of id (record old { role = req.role; updated_at = req.now })
        db.memberships)

pub flush_role :
    Database → Database → RoleUpdate → Result AdminUserError (List User × List Membership)
flush_role seen db req = do
  changes ← check_role seen db req
  users ← update_user db req.trigger_view req.user_id changes.0
  memberships ← write_membership db req changes.1
  ok (users, memberships)

abbrev pub save_role : Database → List User × List Membership → Database
save_role db (users, memberships) = record db { users = users; memberships = memberships }

pub update_user_role :
    Database
    → Database
    → RoleUpdate
    → Result AdminUserError (List User × List Membership) × Database
update_user_role seen db req = commit (flush_role seen db req) (save_role db) db

abbrev pub is_live_of : Uuid → RefreshToken → Bool
is_live_of user_id t = (t.user_id == user_id) && not (is_some t.revoked_at)

unfoldable pub revoke : Timestamp → RefreshToken → RefreshToken
revoke now t = record t { revoked_at = some now; revoked_reason = some "logout" }

-- The row is among the live refresh tokens of the user that the unlocked `SELECT` has read.
abbrev pub was_live : Uuid → List RefreshToken → Uuid → Bool
was_live user_id seen id = any (λ (t : RefreshToken). is_live_of user_id t && (t.id == id)) seen

abbrev pub revoke_live :
    Uuid → Timestamp → List RefreshToken → List RefreshToken → List RefreshToken
revoke_live user_id now seen tokens =
    map (λ (t : RefreshToken). if was_live user_id seen t.id then revoke now t else t) tokens

pub record Activation : Type 0 where
  pub actor : CurrentUser
  pub user_id : Uuid
  pub now : Timestamp
  pub trigger_view : List User

abbrev pub set_active : Bool → Timestamp → UserChange
set_active b now = record { is_superuser = none; is_active = some b; updated_at = now }

unfoldable pub deactivated : Database → Database → Activation → List User → Database
deactivated seen db req users = record db {
  users = users;
  refresh_tokens = revoke_live req.user_id req.now seen.refresh_tokens db.refresh_tokens;
}

unfoldable pub deactivation :
    Database → Database → Activation → User → Result AdminUserError Database
deactivation seen db req user = do
  guard (not (user.is_superuser && leb (count_active_super_admins db) 1)) last_super_admin_protected
  users ← update_user db req.trigger_view req.user_id (set_active false req.now)
  ok (deactivated seen db req users)

unfoldable pub check_deactivate : Database → Database → Activation → Result AdminUserError Database
check_deactivate seen db req = do
  guard (not (req.user_id == req.actor.id)) cannot_modify_self
  user ← require (find user_id_of req.user_id seen.users) admin_user_not_found
  if user.is_active then deactivation seen db req user else ok db

unfoldable pub deactivate_user :
    Database → Database → Activation → Result AdminUserError Database × Database
deactivate_user seen db req = commit (check_deactivate seen db req) (λ saved. saved) db

pub activation : Database → Activation → Result AdminUserError Database
activation db req = do
  users ← update_user db req.trigger_view req.user_id (set_active true req.now)
  ok record db { users = users }

pub check_activate : Database → Database → Activation → Result AdminUserError Database
check_activate seen db req = do
  user ← require (find user_id_of req.user_id seen.users) admin_user_not_found
  if user.is_active then ok db else activation db req

pub activate_user : Database → Database → Activation → Result AdminUserError Database × Database
activate_user seen db req = commit (check_activate seen db req) (λ saved. saved) db

-- The requests of the admin page, each with the snapshot that it loads its rows from.
pub data Request : Type 0 where
  change_role : Database → RoleUpdate → Request
  deactivate activate : Database → Activation → Request

pub step : Database → Request → Database
step db (change_role seen req) = (update_user_role seen db req).1
step db (deactivate seen req) = (deactivate_user seen db req).1
step db (activate seen req) = (activate_user seen db req).1

pub run : Database → List Request → Database
run db [] = db
run db (q ∷ qs) = run (step db q) qs
