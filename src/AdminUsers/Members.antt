-- ===== src/AdminUsers/Members.antt =====
-- One membership for a user in a team.
use trustedoss_portal.Prelude.{
  ◌≤◌, true, false, not, List, [], ◌∷◌, ◌==◌, Uuid, ok, guard, ◌>>◌, require, >>=-eq-ok,
  require-eq-ok, commit_inv, any, count_if, bit, Bool-cases, find, set_row, count_if-set_row, arith,
  any-eq-false, inl, inr, ◌≡◌, ap,
}
use mathlib.Core.Path.{subst₂}
use trustedoss_portal.Model.{Team, Membership, Database}
use trustedoss_portal.AdminUsers.Rows.{
  team_not_found, integrity_error, membership_id_of, stale_data,
}
use trustedoss_portal.AdminUsers.{
  is_member_of, untouched, insert, assign, deactivated, MembershipChange, RoleUpdate,
  write_membership, flush_role, save_role, update_user_role, Activation, check_deactivate,
  deactivate_user, check_activate, activate_user, Request, change_role, deactivate, activate, step,
  run,
}
use trustedoss_portal.AdminUsers.Writes.{flush_role-ok, check_deactivate-ok, check_activate-ok}

-- `uq_memberships_user_team`
pub record IsUniqueMember (db : Database) : Type 0 where
  pub at : (u t : Uuid) → count_if (is_member_of u t) db.memberships ≤ 1

member_pair :
    (u t : Uuid) (m : Membership) → is_member_of u t m ≡ true → (m.user_id ≡ u) × (m.team_id ≡ t)
member_pair u t m h = ground arith

insert-members :
    (m : Membership) (rows : List Membership) (u t : Uuid)
    → count_if (is_member_of m.user_id m.team_id) rows ≡ 0
    → count_if (is_member_of u t) rows ≤ 1
    → count_if (is_member_of u t) (m ∷ rows) ≤ 1
insert-members m rows u t none_yet below = elim (Bool-cases (is_member_of u t m)) [
  | inl here ↦
      let (eu, et) = member_pair u t m here in
      let z : count_if (is_member_of u t) rows ≡ 0 =
        subst₂ (λ a b. count_if (is_member_of a b) rows ≡ 0) eu et none_yet in
      omega (arith, z, ap bit here)
  | inr elsewhere ↦ omega (arith, below, ap bit elsewhere)
]

inserted :
    (db : Database) (m : Membership) (saved : List Membership)
    → (do
      guard (any (λ (t : Team). t.id == m.team_id) db.teams) team_not_found
      guard (not (any (λ (o : Membership). o.id == m.id) db.memberships)) integrity_error
      guard (not (any (is_member_of m.user_id m.team_id) db.memberships)) integrity_error
      ok (m ∷ db.memberships))
      ≡ ok saved
    → (any (is_member_of m.user_id m.team_id) db.memberships ≡ false) × (saved ≡ m ∷ db.memberships)
inserted db m saved h = ground arith

write_membership-members :
    (db : Database) (req : RoleUpdate) (change : MembershipChange) (saved : List Membership)
    → write_membership db req change ≡ ok saved
    → IsUniqueMember db
    → (u t : Uuid) → count_if (is_member_of u t) saved ≤ 1
unfolding write_membership
write_membership-members db req untouched saved h unique u t =
    let same : db.memberships ≡ saved = cc h in rw (← same) (unique.at u t)
write_membership-members db req (insert m) saved h unique u t =
    let (fresh, written) = inserted db m saved h in
    rw written (
      insert-members m db.memberships u t
        (any-eq-false (is_member_of m.user_id m.team_id) db.memberships fresh) (unique.at u t))
write_membership-members db req (assign id) saved h unique u t =
    let (old, loaded, written) =
      >>=-eq-ok (require (find membership_id_of id db.memberships) stale_data) _ h in
    let new : Membership = record old { role = req.role; updated_at = req.now } in
    let same : set_row membership_id_of id new db.memberships ≡ saved = cc written in
    rw (← same) (
      omega (
        arith,
        unique.at u t,
        count_if-set_row membership_id_of (is_member_of u t) id old new db.memberships
            (require-eq-ok (find membership_id_of id db.memberships) stale_data loaded),
      ))

deactivate_user-IsUniqueMember :
    (seen db : Database) (req : Activation)
    → IsUniqueMember db
    → IsUniqueMember (deactivate_user seen db req).1
unfolding deactivate_user deactivated
deactivate_user-IsUniqueMember seen db req unique =
    commit_inv IsUniqueMember (check_deactivate seen db req) (λ d. d) db unique
      λ saved passed.
        let (user, found, outcome) = check_deactivate-ok seen db req saved passed in
        elim outcome [
          | inl (off, same) ↦ rw same unique
          | inr (_, users, flushed, written) ↦ rw written (record { at = unique.at })
        ]

activate_user-IsUniqueMember :
    (seen db : Database) (req : Activation)
    → IsUniqueMember db
    → IsUniqueMember (activate_user seen db req).1
unfolding activate_user
activate_user-IsUniqueMember seen db req unique =
    commit_inv IsUniqueMember (check_activate seen db req) (λ d. d) db unique
      λ saved passed. elim (check_activate-ok seen db req saved passed) [
        | inl same ↦ rw same unique
        | inr (users, flushed, written) ↦ rw written (record { at = unique.at })
      ]

update_user_role-IsUniqueMember :
    (seen db : Database) (req : RoleUpdate)
    → IsUniqueMember db
    → IsUniqueMember (update_user_role seen db req).1
unfolding update_user_role
update_user_role-IsUniqueMember seen db req unique =
    commit_inv IsUniqueMember (flush_role seen db req) (save_role db) db unique λ saved passed.
      let (changes, _, _, written) = flush_role-ok seen db req saved passed in
      record { at = write_membership-members db req changes.1 saved.1 written unique }

step-IsUniqueMember : (db : Database) (q : Request) → IsUniqueMember db → IsUniqueMember (step db q)
unfolding step
step-IsUniqueMember db (change_role seen req) u = update_user_role-IsUniqueMember seen db req u
step-IsUniqueMember db (deactivate seen req) u = deactivate_user-IsUniqueMember seen db req u
step-IsUniqueMember db (activate seen req) u = activate_user-IsUniqueMember seen db req u

-- No run of the admin page's requests, each checked on whatever snapshot it loaded, gives a user
-- two memberships of one team, if the run starts with none such.
pub run-IsUniqueMember :
    (db : Database) (qs : List Request) → IsUniqueMember db → IsUniqueMember (run db qs)
unfolding run
run-IsUniqueMember db [] u = u
run-IsUniqueMember db (q ∷ qs) u = run-IsUniqueMember (step db q) qs (step-IsUniqueMember db q u)
