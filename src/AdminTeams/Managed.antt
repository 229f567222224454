-- ===== src/AdminTeams/Managed.antt =====
-- A team that has an admin keeps one as long as it has members.
use trustedoss_portal.Prelude.{
  ◌≤◌, Bool, true, false, not, ◌&&◌, some, List, [], ◌∷◌, count_if, leb, ltb, ◌==◌, ==_refl, Uuid,
  bit, Bool-cases, guard, require, >>=-eq-ok, require-eq-ok, guard-eq-ok, commit_inv, find, find_by,
  find_by-holds, remove_row, count_if-remove_row, arith, ◌⊎◌, inl, inr, ◌≡◌, refl, sym, ap,
}
use mathlib.Core.Path.{subst}
use trustedoss_portal.Model.{Membership, Database}
use trustedoss_portal.AdminTeams.{
  team_not_found, membership_not_found, last_team_admin_protected, stale_data, membership_id_of,
  team_id_of, is_team_admin, belongs_to, admin_in, count_team_admins, count_team_members,
  of_user_in, with_memberships, delete_member, check_remove, remove_team_member,
}

-- The team has an admin, or no member.
abbrev pub IsManaged : Uuid → List Membership → Type 0
IsManaged team_id memberships =
    (1 ≤ count_if (admin_in team_id) memberships) ⊎ (count_if (belongs_to team_id) memberships ≡ 0)

-- The primary key.
pub record IsKeyed (rows : List Membership) : Type 0 where
  pub at : (k : Uuid) → count_if (λ m. membership_id_of m == k) rows ≤ 1

picked_is_counted :
    (p : Membership → Bool) (rows : List Membership) (m : Membership)
    → find_by p rows ≡ some m
    → 1 ≤ count_if (λ r. membership_id_of r == m.id) rows
picked_is_counted p [] m found = absurd (cc found)
picked_is_counted p (x ∷ rows) m found = elim (Bool-cases (p x)) [
  | inl here ↦
      let same : x ≡ m = cc (rw here at found) in
      rw (ap (λ (r : Membership). r.id) same, ==_refl m.id) (omega arith)
  | inr later ↦ omega (arith, picked_is_counted p rows m (rw later at found))
]

-- The row that a clause picks is the one that its id finds.
pub loaded_row :
    (p : Membership → Bool) (rows : List Membership) (m : Membership)
    → find_by p rows ≡ some m
    → IsKeyed rows
    → find membership_id_of m.id rows ≡ some m
loaded_row p [] m found keyed = absurd (cc found)
loaded_row p (x ∷ rows) m found keyed = elim (Bool-cases (p x)) [
  | inl here ↦
      let same : x ≡ m = cc (rw here at found) in
      subst (λ y. find membership_id_of m.id (y ∷ rows) ≡ some m) (sym same)
        (rw (==_refl m.id) refl)
  | inr later ↦
      let in_rest = rw later at found in
      let counted = picked_is_counted p rows m in_rest in
      elim (Bool-cases (x.id == m.id)) [
        | inl same ↦ absurd (omega (arith, keyed.at m.id, counted, ap bit same))
        | inr apart ↦
            rw apart (loaded_row p rows m in_rest (record { at = λ k. omega (arith, keyed.at k) }))
      ]
]

removed :
    (rows : List Membership) (team_id : Uuid) (m : Membership)
    → find membership_id_of m.id rows ≡ some m
    → (m.team_id == team_id) ≡ true
    → (is_team_admin m.role
        && (leb (count_if (admin_in team_id) rows) 1 && ltb 1 (count_if (belongs_to team_id) rows)))
      ≡ false
    → 1 ≤ count_if (admin_in team_id) rows
    → IsManaged team_id (remove_row membership_id_of m.id rows)
removed rows team_id m found mine allowed admins =
    let left = count_if-remove_row membership_id_of (admin_in team_id) m.id m rows found in
    let rest = count_if-remove_row membership_id_of (belongs_to team_id) m.id m rows found in
    let out = remove_row membership_id_of m.id rows in
    elim (Bool-cases (leb 1 (count_if (admin_in team_id) out))) [
      | inl some_left ↦ inl (ground arith)
      | inr none_left ↦ inr (ground (arith, left, rest))
    ]

pub negated : (b : Bool) → not b ≡ true → b ≡ false
negated b h = ground arith

pub in_team :
    (team_id user_id : Uuid) (m : Membership)
    → of_user_in user_id team_id m ≡ true
    → (m.team_id == team_id) ≡ true
in_team team_id user_id m h = ground arith

-- Removing a member of a team that has an admin, checked on the current rows, with membership ids
-- unique, leaves a team that has an admin or no member; a refusal counts as well.
pub remove_team_member-IsManaged :
    (db : Database) (team_id user_id : Uuid)
    → IsKeyed db.memberships
    → 1 ≤ count_team_admins db team_id
    → IsManaged team_id (remove_team_member db db team_id user_id).1.memberships
unfolding remove_team_member check_remove delete_member
remove_team_member-IsManaged db team_id user_id keyed admins =
    commit_inv (λ (d : Database). IsManaged team_id d.memberships)
      (check_remove db db team_id user_id) (with_memberships db) db (inl admins)
      λ saved passed.
        let picks = of_user_in user_id team_id in
        let (_, _, h1) =
          >>=-eq-ok (require (find team_id_of team_id db.teams) team_not_found) _ passed in
        let (m, picked, h2) =
          >>=-eq-ok (require (find_by picks db.memberships) membership_not_found) _ h1 in
        let row = require-eq-ok (find_by picks db.memberships) membership_not_found picked in
        let protects =
          is_team_admin m.role
          && (leb (count_team_admins db team_id) 1 && ltb 1 (count_team_members db team_id)) in
        let (_, allowed, h3) = >>=-eq-ok (guard (not protects) last_team_admin_protected) _ h2 in
        let (_, _, h4) =
          >>=-eq-ok (require (find membership_id_of m.id db.memberships) stale_data) _ h3 in
        let written : remove_row membership_id_of m.id db.memberships ≡ saved = cc h4 in
        let free : not protects ≡ true =
          guard-eq-ok (not protects) last_team_admin_protected allowed in
        subst (IsManaged team_id) written (
          removed db.memberships team_id m (loaded_row picks db.memberships m row keyed)
            (in_team team_id user_id m (find_by-holds picks db.memberships m row))
            (negated protects free) admins)
