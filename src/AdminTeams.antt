-- ===== src/AdminTeams.antt =====
-- apps/backend/services/admin_team_service.py: the members of a team. The membership row is loaded
-- from `seen`; the admins are counted under their row locks, in `db`, which the commit meets.
pub mod Teams
mod Managed
mod Added
mod Examples
use trustedoss_portal.Prelude.{
  ℕ, ◌-◌, Bool, true, false, not, ◌&&◌, ◌||◌, Option, none, some, List, [], ◌∷◌, count_if, leb, ltb,
  ◌==◌, str_eq, if◌then◌else◌, Uuid, Timestamp, any, Result, ok, err, guard, ◌>>=◌, ◌>>◌, require,
  commit, find, find_by, set_row, remove_row,
}
use trustedoss_portal.Model.{
  Role, super_admin, team_admin, developer, other, Team, User, Membership, Database,
}

-- `stale_data` and `integrity_error` are the exceptions of the commit, which the service lets pass.
pub data AdminTeamError : Type 0 where
  team_not_found user_not_found membership_not_found : AdminTeamError
  last_team_admin_protected stale_data integrity_error : AdminTeamError

abbrev pub membership_id_of : Membership → Uuid
membership_id_of m = m.id

abbrev pub team_id_of : Team → Uuid
team_id_of t = t.id

abbrev pub is_team_admin : Role → Bool
is_team_admin team_admin = true
is_team_admin _ = false

-- The strings of two roles are equal.
abbrev pub same_role : Role → Role → Bool
same_role super_admin super_admin = true
same_role team_admin team_admin = true
same_role developer developer = true
same_role (other a) (other b) = str_eq a b
same_role _ _ = false

abbrev pub belongs_to : Uuid → Membership → Bool
belongs_to team_id m = m.team_id == team_id

abbrev pub admin_in : Uuid → Membership → Bool
admin_in team_id m = (m.team_id == team_id) && is_team_admin m.role

-- `_lock_and_count_team_admins`
abbrev pub count_team_admins : Database → Uuid → ℕ
count_team_admins db team_id = count_if (admin_in team_id) db.memberships

-- `_count_team_members`
abbrev pub count_team_members : Database → Uuid → ℕ
count_team_members db team_id = count_if (belongs_to team_id) db.memberships

abbrev pub of_user_in : Uuid → Uuid → Membership → Bool
of_user_in user_id team_id m = (m.team_id == team_id) && (m.user_id == user_id)

pub record MemberAdd : Type 0 where
  pub team_id : Uuid
  pub user_id : Uuid
  pub role : Role
  pub now : Timestamp
  pub fresh_id : Uuid

abbrev pub new_membership : MemberAdd → Membership
new_membership req = record {
  id = req.fresh_id;
  user_id = req.user_id;
  team_id = req.team_id;
  role = req.role;
  updated_at = req.now;
}

-- The insert of `add_team_member`, under the constraints of the table.
pub insert_member : Database → MemberAdd → Result AdminTeamError (List Membership)
insert_member db req = do
  guard (any (λ (t : Team). t.id == req.team_id) db.teams) integrity_error
  guard (not (any (λ (m : Membership). m.id == req.fresh_id) db.memberships)) integrity_error
  guard (not (any (of_user_in req.user_id req.team_id) db.memberships)) integrity_error
  ok (new_membership req ∷ db.memberships)

abbrev pub with_role : MemberAdd → Membership → Membership
with_role req m = record m { role = req.role; updated_at = req.now }

-- The demotion guard, then the write of the role.
pub change_role : Database → MemberAdd → Membership → Result AdminTeamError (List Membership)
change_role db req existing = do
  guard
      (not (
        (is_team_admin existing.role && not (is_team_admin req.role))
        && (leb (count_team_admins db req.team_id) 1
            && ltb 0 (count_team_members db req.team_id - 1))))
      last_team_admin_protected
  current ← require (find membership_id_of existing.id db.memberships) stale_data
  ok (set_row membership_id_of existing.id (with_role req current) db.memberships)

pub upsert_member :
    Database → MemberAdd → Option Membership → Result AdminTeamError (List Membership)
upsert_member db req none = insert_member db req
upsert_member db req (some existing) =
    if same_role existing.role req.role then ok db.memberships else change_role db req existing

pub check_add : Database → Database → MemberAdd → Result AdminTeamError (List Membership)
check_add seen db req = do
  _ ← require (find team_id_of req.team_id seen.teams) team_not_found
  _ ← require (find (λ (u : User). u.id) req.user_id seen.users) user_not_found
  upsert_member db req (find_by (of_user_in req.user_id req.team_id) seen.memberships)

abbrev pub with_memberships : Database → List Membership → Database
with_memberships db memberships = record db { memberships = memberships }

pub add_team_member :
    Database → Database → MemberAdd → Result AdminTeamError (List Membership) × Database
add_team_member seen db req = commit (check_add seen db req) (with_memberships db) db

-- The guard of a removal, then the delete.
pub delete_member : Database → Uuid → Membership → Result AdminTeamError (List Membership)
delete_member db team_id membership = do
  guard
      (not (
        is_team_admin membership.role
        && (leb (count_team_admins db team_id) 1 && ltb 1 (count_team_members db team_id))))
      last_team_admin_protected
  _ ← require (find membership_id_of membership.id db.memberships) stale_data
  ok (remove_row membership_id_of membership.id db.memberships)

pub check_remove : Database → Database → Uuid → Uuid → Result AdminTeamError (List Membership)
check_remove seen db team_id user_id = do
  _ ← require (find team_id_of team_id seen.teams) team_not_found
  membership ← require (find_by (of_user_in user_id team_id) seen.memberships) membership_not_found
  delete_member db team_id membership

pub remove_team_member :
    Database → Database → Uuid → Uuid → Result AdminTeamError (List Membership) × Database
remove_team_member seen db team_id user_id =
    commit (check_remove seen db team_id user_id) (with_memberships db) db
