-- ===== src/AdminUsers/Agreement.antt =====
-- The two guards of the last super admin agree on a current snapshot.
use trustedoss_portal.Prelude.{
  ◌≤◌, true, false, not, ◌&&◌, none, some, leb, ◌==◌, ok, guard, require, >>=-eq-ok, require-eq-ok,
  guard-eq-ok, any, count_if, find, key-find, arith, is_ok, count_if-drop, ◌≡◌, refl,
}
use trustedoss_portal.Model.{Role, super_admin, team_admin, developer, other, Team, User, Database}
use trustedoss_portal.AdminUsers.Rows.{
  invalid_role_assignment, team_not_found, admin_user_not_found, last_super_admin_protected,
  cannot_modify_self, user_id_of, is_active_super_admin, count_active_super_admins, UserChange,
  apply_change, enforce_last_super_admin, update_user,
}
use trustedoss_portal.AdminUsers.{
  promotion, demotion, role_change, MembershipChange, RoleUpdate, check_role,
}

enough_remain :
    (db : Database) (user : User)
    → count_if (λ u. user_id_of u == user.id) db.users ≤ 1
    → leb (count_active_super_admins db) 1 ≡ false
    → (count_if (λ u. is_active_super_admin u && not (u.id == user.id)) db.users == 0) ≡ false
enough_remain db user unique many =
    ground (arith, count_if-drop user_id_of is_active_super_admin user.id db.users)

promotion_passes :
    (db : Database) (req : RoleUpdate) (user : User)
    → enforce_last_super_admin db.users user (some (apply_change (promotion req user).0 user))
      ≡ true
unfolding promotion apply_change enforce_last_super_admin
promotion_passes db req user = ground arith

demoted_passes :
    (db : Database) (user : User) (change : UserChange)
    → count_if (λ u. user_id_of u == user.id) db.users ≤ 1
    → not (user.is_superuser && (user.is_active && leb (count_active_super_admins db) 1)) ≡ true
    → change.is_active ≡ none
    → enforce_last_super_admin db.users user (some (apply_change change user)) ≡ true
unfolding enforce_last_super_admin apply_change
demoted_passes db user change unique safe on = ground (arith, enough_remain db user unique)

demotion_passes :
    (db : Database) (req : RoleUpdate) (user : User) (changes : UserChange × MembershipChange)
    → count_if (λ u. user_id_of u == user.id) db.users ≤ 1
    → demotion db db req user ≡ ok changes
    → enforce_last_super_admin db.users user (some (apply_change changes.0 user)) ≡ true
unfolding demotion
demotion_passes db req user changes unique h =
    let (team_id, _, h1) = >>=-eq-ok (require req.team_id invalid_role_assignment) _ h in
    let (_, _, h2) =
      >>=-eq-ok (guard (any (λ (t : Team). t.id == team_id) db.teams) team_not_found) _ h1 in
    let safe =
      not (user.is_superuser && (user.is_active && leb (count_active_super_admins db) 1)) in
    let (_, kept, h3) = >>=-eq-ok (guard safe last_super_admin_protected) _ h2 in
    demoted_passes db user changes.0 unique (guard-eq-ok safe last_super_admin_protected kept)
      (cc h3)

role_change_passes :
    (db : Database) (req : RoleUpdate) (user : User) (role : Role)
    (changes : UserChange × MembershipChange)
    → count_if (λ u. user_id_of u == user.id) db.users ≤ 1
    → role_change db db req user role ≡ ok changes
    → enforce_last_super_admin db.users user (some (apply_change changes.0 user)) ≡ true
unfolding role_change
role_change_passes db req user super_admin changes unique h =
    let same : promotion req user ≡ changes = cc h in rw (← same) (promotion_passes db req user)
role_change_passes db req user team_admin changes unique h =
    demotion_passes db req user changes unique h
role_change_passes db req user developer changes unique h =
    demotion_passes db req user changes unique h
role_change_passes db req user (other r) changes unique h =
    demotion_passes db req user changes unique h

-- A role change that is checked, by the trigger too, on the current rows, with user ids unique, is never refused by
-- the trigger: once the service's own checks pass, the flush of the user row succeeds.
pub check_role-update_user :
    (db : Database) (req : RoleUpdate) (changes : UserChange × MembershipChange)
    → count_if (λ u. user_id_of u == req.user_id) db.users ≤ 1
    → check_role db db req ≡ ok changes
    → is_ok (update_user db db.users req.user_id changes.0) ≡ true
unfolding check_role update_user
check_role-update_user db req changes unique h =
    let (_, _, h1) = >>=-eq-ok (guard (not (req.user_id == req.actor.id)) cannot_modify_self) _ h in
    let (user, loaded, h2) =
      >>=-eq-ok (require (find user_id_of req.user_id db.users) admin_user_not_found) _ h1 in
    let found = require-eq-ok (find user_id_of req.user_id db.users) admin_user_not_found loaded in
    let key = key-find user_id_of req.user_id db.users user found in
    let passes = role_change_passes db req user req.role changes (rw key unique) h2 in
    rw found (rw passes refl)
