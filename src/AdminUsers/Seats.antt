-- ===== src/AdminUsers/Seats.antt =====
-- The seat of the last super admin over runs of requests.
use trustedoss_portal.Prelude.{
  ◌≤◌, Bool, true, false, not, ◌&&◌, ◌||◌, Option, none, some, List, [], ◌∷◌, ◌==◌, leb, ltb, Uuid,
  Timestamp, ok, guard, require, >>=-eq-ok, guard-eq-ok, commit_inv, any, count_if, find, set_row,
  count_if-set_row, arith, inl, inr, ◌≡◌,
}
use trustedoss_portal.Model.{Role, super_admin, team_admin, developer, other, Team, User, Database}
use trustedoss_portal.AdminUsers.Rows.{
  invalid_role_assignment, team_not_found, last_super_admin_protected, user_id_of,
  is_active_super_admin, count_active_super_admins, UserChange, apply_change, update_user,
}
use trustedoss_portal.AdminUsers.{
  deactivated, MembershipChange, RoleUpdate, promotion, demotion, role_change, flush_role,
  save_role, update_user_role, set_active, Activation, check_deactivate, deactivate_user,
  check_activate, activate_user, Request, change_role, deactivate, activate, step, run,
}
use trustedoss_portal.AdminUsers.Writes.{
  update_user-ok, check_role-ok, flush_role-ok, check_deactivate-ok, check_activate-ok,
}

-- Some super admin is active.
abbrev pub HasSeat : List User → Type 0
HasSeat users = 1 ≤ count_if is_active_super_admin users

abbrev pub holds_seat : Option User → Bool
holds_seat none = false
holds_seat (some u) = is_active_super_admin u

-- A row that holds a seat at the commit held one when the request loaded it.
abbrev pub SawSeat : Database → Database → Uuid → Type 0
SawSeat seen db id =
    (not (holds_seat (find user_id_of id db.users)) || holds_seat (find user_id_of id seen.users))
    ≡ true

-- Each demotion and deactivation of the run saw the seat of the row that it changes.
abbrev pub SawSeats : Database → List Request → Type 0
SawSeats db [] = Unit {0}
SawSeats db (change_role seen req ∷ qs) =
    SawSeat seen db req.user_id × SawSeats (step db (change_role seen req)) qs
SawSeats db (deactivate seen req ∷ qs) =
    SawSeat seen db req.user_id × SawSeats (step db (deactivate seen req)) qs
SawSeats db (activate seen req ∷ qs) = SawSeats (step db (activate seen req)) qs

-- A write keeps a seat if it takes none away, or if two were counted.
write_keeps :
    (users : List User) (old new : User) (k : Uuid)
    → find user_id_of k users ≡ some old
    → (not (is_active_super_admin old)
        || (is_active_super_admin new || ltb 1 (count_if is_active_super_admin users)))
      ≡ true
    → HasSeat users
    → HasSeat (set_row user_id_of k new users)
write_keeps users old new k found safe seat =
    ground (arith, count_if-set_row user_id_of is_active_super_admin k old new users found)

update_user-seat :
    (db : Database) (view : List User) (id : Uuid) (change : UserChange) (users : List User)
    → update_user db view id change ≡ ok users
    → ((old : User)
        → find user_id_of id db.users ≡ some old
        → (not (is_active_super_admin old)
            || (is_active_super_admin (apply_change change old)
                || ltb 1 (count_active_super_admins db)))
          ≡ true)
    → HasSeat db.users
    → HasSeat users
update_user-seat db view id change users h safe seat =
    let (old, found, _, written) = update_user-ok db view id change users h in
    rw written (write_keeps db.users old (apply_change change old) id found (safe old found) seat)

-- The row that a request loaded held the seat that the stored row holds.
saw_seat :
    (seen db : Database) (id : Uuid) (user old : User)
    → SawSeat seen db id
    → find user_id_of id seen.users ≡ some user
    → find user_id_of id db.users ≡ some old
    → (not (is_active_super_admin old) || is_active_super_admin user) ≡ true
saw_seat seen db id user old saw loaded found = rw loaded at (rw found at saw)

promotion_safe :
    (req : RoleUpdate) (user old : User)
    → (not (is_active_super_admin old)
        || is_active_super_admin (apply_change (promotion req user).0 old))
      ≡ true
unfolding promotion apply_change
promotion_safe req user old = ground arith

demotion_safe :
    (seen db : Database) (req : RoleUpdate) (user : User) (changes : UserChange × MembershipChange)
    → demotion seen db req user ≡ ok changes
    → (not (is_active_super_admin user) || ltb 1 (count_active_super_admins db)) ≡ true
unfolding demotion
demotion_safe seen db req user changes h =
    let (team_id, _, h1) = >>=-eq-ok (require req.team_id invalid_role_assignment) _ h in
    let (_, _, h2) =
      >>=-eq-ok (guard (any (λ (t : Team). t.id == team_id) seen.teams) team_not_found) _ h1 in
    let safe =
      not (user.is_superuser && (user.is_active && leb (count_active_super_admins db) 1)) in
    let (_, kept, h3) = >>=-eq-ok (guard safe last_super_admin_protected) _ h2 in
    let passed : safe ≡ true = guard-eq-ok safe last_super_admin_protected kept in
    ground (arith, passed)

kept_or_counted :
    (was sure still many : Bool)
    → (not was || sure) ≡ true
    → (not sure || many) ≡ true
    → (not was || (still || many)) ≡ true
kept_or_counted was sure still many h k = ground arith

widen : (was still many : Bool) → (not was || still) ≡ true → (not was || (still || many)) ≡ true
widen was still many h = ground arith

demoted_safe :
    (seen db : Database) (req : RoleUpdate) (user old : User)
    (changes : UserChange × MembershipChange)
    → demotion seen db req user ≡ ok changes
    → (not (is_active_super_admin old) || is_active_super_admin user) ≡ true
    → (not (is_active_super_admin old)
        || (is_active_super_admin (apply_change changes.0 old)
            || ltb 1 (count_active_super_admins db)))
      ≡ true
demoted_safe seen db req user old changes h saw =
    kept_or_counted (is_active_super_admin old) (is_active_super_admin user)
      (is_active_super_admin (apply_change changes.0 old)) (ltb 1 (count_active_super_admins db))
      saw (demotion_safe seen db req user changes h)

role_change_safe :
    (seen db : Database) (req : RoleUpdate) (user old : User) (role : Role)
    (changes : UserChange × MembershipChange)
    → role_change seen db req user role ≡ ok changes
    → (not (is_active_super_admin old) || is_active_super_admin user) ≡ true
    → (not (is_active_super_admin old)
        || (is_active_super_admin (apply_change changes.0 old)
            || ltb 1 (count_active_super_admins db)))
      ≡ true
unfolding role_change
role_change_safe seen db req user old super_admin changes h saw =
    let same : promotion req user ≡ changes = cc h in
    rw (← same) (
      widen (is_active_super_admin old)
        (is_active_super_admin (apply_change (promotion req user).0 old))
        (ltb 1 (count_active_super_admins db)) (promotion_safe req user old))
role_change_safe seen db req user old team_admin changes h saw =
    demoted_safe seen db req user old changes h saw
role_change_safe seen db req user old developer changes h saw =
    demoted_safe seen db req user old changes h saw
role_change_safe seen db req user old (other r) changes h saw =
    demoted_safe seen db req user old changes h saw

update_user_role-seat :
    (seen db : Database) (req : RoleUpdate)
    → SawSeat seen db req.user_id
    → HasSeat db.users
    → HasSeat (update_user_role seen db req).1.users
unfolding update_user_role
update_user_role-seat seen db req saw seat =
    commit_inv (λ (d : Database). HasSeat d.users) (flush_role seen db req) (save_role db) db seat
      λ saved passed.
        let (changes, checked, flushed, _) = flush_role-ok seen db req saved passed in
        let (user, loaded, decided) = check_role-ok seen db req changes checked in
        update_user-seat db req.trigger_view req.user_id changes.0 saved.0 flushed
          (λ old found.
            role_change_safe seen db req user old req.role changes decided
              (saw_seat seen db req.user_id user old saw loaded found))
          seat

deactivation_safe :
    (db : Database) (user old : User) (still : Bool)
    → not (user.is_superuser && leb (count_active_super_admins db) 1) ≡ true
    → (not (is_active_super_admin old) || is_active_super_admin user) ≡ true
    → (not (is_active_super_admin old) || (still || ltb 1 (count_active_super_admins db))) ≡ true
deactivation_safe db user old still kept saw = ground arith

deactivate_user-seat :
    (seen db : Database) (req : Activation)
    → SawSeat seen db req.user_id
    → HasSeat db.users
    → HasSeat (deactivate_user seen db req).1.users
unfolding deactivate_user deactivated
deactivate_user-seat seen db req saw seat =
    commit_inv (λ (d : Database). HasSeat d.users) (check_deactivate seen db req) (λ d. d) db seat
      λ saved passed.
        let (user, found, outcome) = check_deactivate-ok seen db req saved passed in
        elim outcome [
          | inl (off, same) ↦ rw same seat
          | inr (kept, users, flushed, written) ↦ rw written (
              update_user-seat db req.trigger_view req.user_id (set_active false req.now) users
                flushed
                (λ old there.
                  deactivation_safe db user old _ kept
                    (saw_seat seen db req.user_id user old saw found there))
                seat)
        ]

activation_safe :
    (now : Timestamp) (old : User) (many : Bool)
    → (not (is_active_super_admin old)
        || (is_active_super_admin (apply_change (set_active true now) old) || many))
      ≡ true
unfolding apply_change
activation_safe now old many = ground arith

activate_user-seat :
    (seen db : Database) (req : Activation)
    → HasSeat db.users
    → HasSeat (activate_user seen db req).1.users
unfolding activate_user
activate_user-seat seen db req seat =
    commit_inv (λ (d : Database). HasSeat d.users) (check_activate seen db req) (λ d. d) db seat
      λ saved passed. elim (check_activate-ok seen db req saved passed) [
        | inl same ↦ rw same seat
        | inr (users, flushed, written) ↦ rw written (
            update_user-seat db req.trigger_view req.user_id (set_active true req.now) users flushed
              (λ old there. activation_safe req.now old _) seat)
      ]

-- If some super admin is active, some super admin is active after every run of role changes,
-- deactivations and activations, whatever the trigger sees, provided that each role change and
-- deactivation of a row that is an active super admin's at its commit had loaded that row as one.
pub run-HasSeat :
    (db : Database) (qs : List Request)
    → SawSeats db qs
    → HasSeat db.users
    → HasSeat (run db qs).users
unfolding run step
run-HasSeat db [] saw seat = seat
run-HasSeat db (change_role seen req ∷ qs) (here, saw) seat =
    run-HasSeat (step db (change_role seen req)) qs saw
      (update_user_role-seat seen db req here seat)
run-HasSeat db (deactivate seen req ∷ qs) (here, saw) seat =
    run-HasSeat (step db (deactivate seen req)) qs saw (deactivate_user-seat seen db req here seat)
run-HasSeat db (activate seen req ∷ qs) saw seat =
    run-HasSeat (step db (activate seen req)) qs saw (activate_user-seat seen db req seat)
