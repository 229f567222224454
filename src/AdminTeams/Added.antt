-- ===== src/AdminTeams/Added.antt =====
-- What adding a member, or changing a member's role, leaves of a team.
use trustedoss_portal.Prelude.{
  ◌-◌, ◌≤◌, false, not, ◌&&◌, Option, none, some, List, ◌∷◌, count_if, leb, ltb, ◌==◌, Uuid, any,
  Bool-cases, ok, guard, require, >>=-eq-ok, require-eq-ok, guard-eq-ok, commit_inv, find, find_by,
  set_row, count_if-set_row, arith, ◌⊎◌, inl, inr, ◌≡◌, refl, sym,
}
use mathlib.Core.Path.{subst}
use trustedoss_portal.Model.{Team, User, Membership, Database}
use trustedoss_portal.AdminTeams.{
  team_not_found, user_not_found, last_team_admin_protected, stale_data, integrity_error,
  membership_id_of, team_id_of, is_team_admin, same_role, belongs_to, admin_in, count_team_admins,
  count_team_members, of_user_in, MemberAdd, new_membership, insert_member, with_role, change_role,
  upsert_member, check_add, with_memberships, add_team_member,
}
use trustedoss_portal.AdminTeams.Managed.{IsKeyed, loaded_row, negated}

-- The team has an admin, or at most one member.
abbrev pub IsLed : Uuid → List Membership → Type 0
IsLed team_id memberships =
    (1 ≤ count_if (admin_in team_id) memberships) ⊎ (count_if (belongs_to team_id) memberships ≤ 1)

insert_member-IsLed :
    (db : Database) (req : MemberAdd) (saved : List Membership)
    → insert_member db req ≡ ok saved
    → 1 ≤ count_team_admins db req.team_id
    → IsLed req.team_id saved
unfolding insert_member
insert_member-IsLed db req saved h admins =
    let (_, _, h1) =
      >>=-eq-ok (guard (any (λ (t : Team). t.id == req.team_id) db.teams) integrity_error) _ h in
    let (_, _, h2) =
      >>=-eq-ok
        (guard (not (any (λ (m : Membership). m.id == req.fresh_id) db.memberships))
          integrity_error)
        _ h1 in
    let (_, _, h3) =
      >>=-eq-ok
        (guard (not (any (of_user_in req.user_id req.team_id) db.memberships)) integrity_error) _
        h2 in
    let written : new_membership req ∷ db.memberships ≡ saved = cc h3 in
    subst (IsLed req.team_id) written (inl (omega (arith, admins)))

changed :
    (rows : List Membership) (req : MemberAdd) (m : Membership)
    → find membership_id_of m.id rows ≡ some m
    → ((is_team_admin m.role && not (is_team_admin req.role))
        && (leb (count_if (admin_in req.team_id) rows) 1
            && ltb 0 (count_if (belongs_to req.team_id) rows - 1)))
      ≡ false
    → 1 ≤ count_if (admin_in req.team_id) rows
    → IsLed req.team_id (set_row membership_id_of m.id (with_role req m) rows)
changed rows req m found allowed admins =
    let out = set_row membership_id_of m.id (with_role req m) rows in
    let moved =
      count_if-set_row membership_id_of (admin_in req.team_id) m.id m (with_role req m) rows
        found in
    let kept =
      count_if-set_row membership_id_of (belongs_to req.team_id) m.id m (with_role req m) rows
        found in
    elim (Bool-cases (leb 1 (count_if (admin_in req.team_id) out))) [
      | inl some_left ↦ inl (ground arith)
      | inr none_left ↦ inr (ground (arith, moved, kept))
    ]

change_role-IsLed :
    (db : Database) (req : MemberAdd) (m : Membership) (saved : List Membership)
    → find membership_id_of m.id db.memberships ≡ some m
    → change_role db req m ≡ ok saved
    → 1 ≤ count_team_admins db req.team_id
    → IsLed req.team_id saved
unfolding change_role
change_role-IsLed db req m saved found h admins =
    let protects =
      (is_team_admin m.role && not (is_team_admin req.role))
      && (leb (count_team_admins db req.team_id) 1
          && ltb 0 (count_team_members db req.team_id - 1)) in
    let (_, allowed, h1) = >>=-eq-ok (guard (not protects) last_team_admin_protected) _ h in
    let (current, loaded, h2) =
      >>=-eq-ok (require (find membership_id_of m.id db.memberships) stale_data) _ h1 in
    let row = require-eq-ok (find membership_id_of m.id db.memberships) stale_data loaded in
    let same : current ≡ m = cc (row, found) in
    let written : set_row membership_id_of m.id (with_role req current) db.memberships ≡ saved =
      cc h2 in
    let free = negated protects (guard-eq-ok (not protects) last_team_admin_protected allowed) in
    subst (IsLed req.team_id) written (
      subst
        (λ c. IsLed req.team_id (set_row membership_id_of m.id (with_role req c) db.memberships))
        (sym same) (changed db.memberships req m found free admins))

upsert_member-IsLed :
    (db : Database) (req : MemberAdd) (o : Option Membership) (saved : List Membership)
    → find_by (of_user_in req.user_id req.team_id) db.memberships ≡ o
    → upsert_member db req o ≡ ok saved
    → IsKeyed db.memberships
    → 1 ≤ count_team_admins db req.team_id
    → IsLed req.team_id saved
unfolding upsert_member
upsert_member-IsLed db req none saved picked h keyed admins =
    insert_member-IsLed db req saved h admins
upsert_member-IsLed db req (some m) saved picked h keyed admins =
    elim (Bool-cases (same_role m.role req.role)) [
      | inl same ↦
          let written : db.memberships ≡ saved = cc (rw same at h) in
          subst (IsLed req.team_id) written (inl admins)
      | inr differs ↦
          change_role-IsLed db req m saved
            (loaded_row (of_user_in req.user_id req.team_id) db.memberships m picked keyed)
            (rw differs at h) admins
    ]

-- Adding a member to a team that has an admin, or changing a member's role there, checked on the
-- current rows, with membership ids unique, leaves an admin in the team unless the team has no
-- other member.
pub add_team_member-IsLed :
    (db : Database) (req : MemberAdd)
    → IsKeyed db.memberships
    → 1 ≤ count_team_admins db req.team_id
    → IsLed req.team_id (add_team_member db db req).1.memberships
unfolding add_team_member check_add
add_team_member-IsLed db req keyed admins =
    commit_inv (λ (d : Database). IsLed req.team_id d.memberships) (check_add db db req)
      (with_memberships db) db (inl admins)
      λ saved passed.
        let (_, _, h1) =
          >>=-eq-ok (require (find team_id_of req.team_id db.teams) team_not_found) _ passed in
        let (_, _, h2) =
          >>=-eq-ok (require (find (λ (u : User). u.id) req.user_id db.users) user_not_found) _
            h1 in
        upsert_member-IsLed db req (find_by (of_user_in req.user_id req.team_id) db.memberships)
          saved refl h2 keyed admins
