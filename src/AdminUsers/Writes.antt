-- ===== src/AdminUsers/Writes.antt =====
-- What a request of the admin page wrote when it succeeded.
use trustedoss_portal.Prelude.{
  true, false, not, ◌&&◌, some, List, leb, ◌==◌, Uuid, ok, guard, require, >>=-eq-ok, require-eq-ok,
  guard-eq-ok, Bool-cases, find, set_row, ◌⊎◌, inl, inr, ◌≡◌,
}
use trustedoss_portal.Model.{User, Membership, Database}
use trustedoss_portal.AdminUsers.Rows.{
  admin_user_not_found, last_super_admin_protected, cannot_modify_self, stale_data, user_id_of,
  count_active_super_admins, UserChange, apply_change, enforce_last_super_admin, update_user,
}
use trustedoss_portal.AdminUsers.{
  deactivated, MembershipChange, RoleUpdate, check_role, write_membership, flush_role, role_change,
  set_active, Activation, deactivation, check_deactivate, activation, check_activate,
}

-- What a successful flush of a user row wrote.
pub update_user-ok :
    (db : Database) (view : List User) (id : Uuid) (change : UserChange) (users : List User)
    → update_user db view id change ≡ ok users
    → (old : User) × (find user_id_of id db.users ≡ some old)
      × (enforce_last_super_admin view old (some (apply_change change old)) ≡ true)
      × (users ≡ set_row user_id_of id (apply_change change old) db.users)
unfolding update_user
update_user-ok db view id change users h =
    let (old, found, h1) = >>=-eq-ok (require (find user_id_of id db.users) stale_data) _ h in
    let (_, kept, h2) =
      >>=-eq-ok
        (guard (enforce_last_super_admin view old (some (apply_change change old)))
          last_super_admin_protected)
        _ h1 in
    (
      old,
      require-eq-ok (find user_id_of id db.users) stale_data found,
      guard-eq-ok _ last_super_admin_protected kept,
      cc h2,
    )

-- The parts of a successful role change.
pub flush_role-ok :
    (seen db : Database) (req : RoleUpdate) (saved : List User × List Membership)
    → flush_role seen db req ≡ ok saved
    → (changes : UserChange × MembershipChange) × (check_role seen db req ≡ ok changes)
      × (update_user db req.trigger_view req.user_id changes.0 ≡ ok saved.0)
      × (write_membership db req changes.1 ≡ ok saved.1)
unfolding flush_role
flush_role-ok seen db req saved h =
    let (changes, checked, h1) = >>=-eq-ok (check_role seen db req) _ h in
    let (users, flushed, h2) =
      >>=-eq-ok (update_user db req.trigger_view req.user_id changes.0) _ h1 in
    let (memberships, written, h3) = >>=-eq-ok (write_membership db req changes.1) _ h2 in
    (changes, checked, cc (flushed, h3), cc (written, h3))

deactivation-ok :
    (seen db : Database) (req : Activation) (user : User) (saved : Database)
    → deactivation seen db req user ≡ ok saved
    → (not (user.is_superuser && leb (count_active_super_admins db) 1) ≡ true)
      × (users : List User) × (update_user db req.trigger_view req.user_id
            (set_active false req.now)
          ≡ ok users)
      × (saved ≡ deactivated seen db req users)
unfolding deactivation deactivated
deactivation-ok seen db req user saved h =
    let (_, kept, h1) =
      >>=-eq-ok
        (guard (not (user.is_superuser && leb (count_active_super_admins db) 1))
          last_super_admin_protected)
        _ h in
    let (users, flushed, h2) =
      >>=-eq-ok (update_user db req.trigger_view req.user_id (set_active false req.now)) _ h1 in
    (guard-eq-ok _ last_super_admin_protected kept, users, flushed, cc h2)

-- A deactivation that succeeded left an inactive user alone, or flushed an active one.
pub check_deactivate-ok :
    (seen db : Database) (req : Activation) (saved : Database)
    → check_deactivate seen db req ≡ ok saved
    → (user : User) × (find user_id_of req.user_id seen.users ≡ some user)
      × (((user.is_active ≡ false) × (saved ≡ db))
          ⊎ ((not (user.is_superuser && leb (count_active_super_admins db) 1) ≡ true)
              × (users : List User) × (update_user db req.trigger_view req.user_id
                    (set_active false req.now)
                  ≡ ok users)
              × (saved ≡ deactivated seen db req users)))
unfolding check_deactivate
check_deactivate-ok seen db req saved h =
    let (_, _, h1) = >>=-eq-ok (guard (not (req.user_id == req.actor.id)) cannot_modify_self) _ h in
    let (user, found, h2) =
      >>=-eq-ok (require (find user_id_of req.user_id seen.users) admin_user_not_found) _ h1 in
    (
      user,
      require-eq-ok (find user_id_of req.user_id seen.users) admin_user_not_found found,
      elim (Bool-cases user.is_active) [
        | inl on ↦ inr (deactivation-ok seen db req user saved (rw on at h2))
        | inr off ↦ inl (off, cc (rw off at h2))
      ],
    )

activation-ok :
    (db : Database) (req : Activation) (saved : Database)
    → activation db req ≡ ok saved
    → (users : List User) × (update_user db req.trigger_view req.user_id (set_active true req.now)
        ≡ ok users)
      × (saved ≡ record db { users = users })
unfolding activation
activation-ok db req saved h =
    let (users, flushed, h2) =
      >>=-eq-ok (update_user db req.trigger_view req.user_id (set_active true req.now)) _ h in
    (users, flushed, cc h2)

-- An activation that succeeded left an active user alone, or flushed an inactive one.
pub check_activate-ok :
    (seen db : Database) (req : Activation) (saved : Database)
    → check_activate seen db req ≡ ok saved
    → (saved ≡ db)
      ⊎ ((users : List User) × (update_user db req.trigger_view req.user_id
              (set_active true req.now)
            ≡ ok users)
          × (saved ≡ record db { users = users }))
unfolding check_activate
check_activate-ok seen db req saved h =
    let (user, _, h2) =
      >>=-eq-ok (require (find user_id_of req.user_id seen.users) admin_user_not_found) _ h in
    elim (Bool-cases user.is_active) [
      | inl on ↦ inl (cc (rw on at h2))
      | inr off ↦ inr (activation-ok db req saved (rw off at h2))
    ]

-- A role change that passed was decided on the row that it loaded.
pub check_role-ok :
    (seen db : Database) (req : RoleUpdate) (changes : UserChange × MembershipChange)
    → check_role seen db req ≡ ok changes
    → (user : User) × (find user_id_of req.user_id seen.users ≡ some user)
      × (role_change seen db req user req.role ≡ ok changes)
unfolding check_role
check_role-ok seen db req changes h =
    let (_, _, h1) = >>=-eq-ok (guard (not (req.user_id == req.actor.id)) cannot_modify_self) _ h in
    let (user, loaded, h2) =
      >>=-eq-ok (require (find user_id_of req.user_id seen.users) admin_user_not_found) _ h1 in
    (user, require-eq-ok (find user_id_of req.user_id seen.users) admin_user_not_found loaded, h2)
