-- ===== src/AdminUsers/Examples.antt =====
-- The theorems on the admin page at concrete requests.
use trustedoss_portal.Prelude.{true, false, some, List, [], ◌∷◌, ok, arith, set_row, ◌≡◌, refl}
use trustedoss_portal.Model.{Role, new, pending, ScanStatus, Database}
use trustedoss_portal.Security.{CurrentUser}
use trustedoss_portal.Samples.{member, user_row, store}
use trustedoss_portal.AdminUsers.Rows.{
  user_id_of, apply_change, enforce_last_super_admin, update_user,
}
use trustedoss_portal.AdminUsers.{
  step, update_user_role, flush_role, check_role, role_change, demotion, write_membership, revoke,
  RoleUpdate, Activation, set_active, deactivated, deactivation, check_deactivate, deactivate_user,
  Request, change_role, deactivate, activate, run,
}
use trustedoss_portal.AdminUsers.Seats.{HasSeat, SawSeats, run-HasSeat}

abbrev db : Database
db = store new pending ScanStatus.failed

abbrev root : CurrentUser
root = member 11 Role.super_admin 1

abbrev demote : RoleUpdate
demote = record {
  actor = root;
  user_id = 14;
  role = Role.team_admin;
  team_id = some 2;
  now = 9;
  fresh_id = 103;
  trigger_view = db.users;
}

abbrev leave : Activation
leave = record { actor = root; user_id = 12; now = 9; trigger_view = db.users }

abbrev requests : List Request
requests =
    change_role db demote
    ∷ deactivate db leave
    ∷ deactivate db (record leave { user_id = 14 })
    ∷ activate db leave
    ∷ []

requests-SawSeats : SawSeats db requests
unfolding step update_user_role flush_role check_role role_change demotion write_membership set_row
    update_user enforce_last_super_admin apply_change deactivate_user check_deactivate deactivation
    deactivated revoke
requests-SawSeats = (refl, (refl, (refl, tt)))

run-HasSeat_example : HasSeat (run db requests).users
run-HasSeat_example = run-HasSeat db requests requests-SawSeats (omega arith)

abbrev left : Database
left =
    deactivated db db leave
      (set_row user_id_of 12 (apply_change (set_active false 9) (user_row 12 true false)) db.users)

leave-ok : (deactivate_user db db leave).0 ≡ ok left
unfolding deactivate_user check_deactivate deactivation update_user enforce_last_super_admin
    deactivated
leave-ok = refl
