-- ===== src/AdminUsers/Rows.antt =====
-- The write of one user row: the columns of alembic/versions/0013's trigger and its verdict.
use trustedoss_portal.Prelude.{
  ℕ, Bool, true, not, ◌&&◌, ◌||◌, Option, none, some, List, ◌==◌, if◌then◌else◌, Uuid, Timestamp,
  count_if, Result, ok, guard, ◌>>=◌, ◌>>◌, require, find, set_row,
}
use trustedoss_portal.Model.{User, Membership, Database}

-- `stale_data` and `integrity_error` are the exceptions of the commit that the service re-raises.
pub data AdminUserError : Type 0 where
  admin_user_not_found last_super_admin_protected cannot_modify_self : AdminUserError
  invalid_role_assignment team_not_found stale_data integrity_error : AdminUserError

abbrev pub user_id_of : User → Uuid
user_id_of u = u.id

abbrev pub membership_id_of : Membership → Uuid
membership_id_of m = m.id

abbrev pub is_active_super_admin : User → Bool
is_active_super_admin u = u.is_active && u.is_superuser

-- `_lock_and_count_active_super_admins`
abbrev pub count_active_super_admins : Database → ℕ
count_active_super_admins db = count_if is_active_super_admin db.users

-- An `UPDATE OF users`, the columns that have changed only.
pub record UserChange : Type 0 where
  pub is_superuser : Option Bool
  pub is_active : Option Bool
  pub updated_at : Timestamp

abbrev pub or_old : Option Bool → Bool → Bool
or_old none old = old
or_old (some b) old = b

unfoldable pub apply_change : UserChange → User → User
apply_change change u = record u {
  is_superuser = or_old change.is_superuser u.is_superuser;
  is_active = or_old change.is_active u.is_active;
  updated_at = change.updated_at;
}

abbrev pub becomes_non_super_admin : Option User → Bool
becomes_non_super_admin none = true
becomes_non_super_admin (some new) = not new.is_superuser || not new.is_active

-- `enforce_last_super_admin`, with no new row for a DELETE; false is the exception 23514.
unfoldable pub enforce_last_super_admin : List User → User → Option User → Bool
enforce_last_super_admin users old new =
    if not (is_active_super_admin old)
    then true
    else (if not (becomes_non_super_admin new)
        then true
        else not (count_if (λ u. is_active_super_admin u && not (u.id == old.id)) users == 0))

-- The flush of one user row. The trigger counts in `view`, the rows that its statement sees: nothing
-- holds off a concurrent transaction between its count and the commit.
unfoldable pub update_user :
    Database → List User → Uuid → UserChange → Result AdminUserError (List User)
update_user db view id change = do
  old ← require (find user_id_of id db.users) stale_data
  guard (enforce_last_super_admin view old (some (apply_change change old)))
      last_super_admin_protected
  ok (set_row user_id_of id (apply_change change old) db.users)
