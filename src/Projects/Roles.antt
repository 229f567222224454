-- ===== src/Projects/Roles.antt =====
-- Who changes a project: the check of this service and that of the triage and approval services.
use mathlib.Core.Path.{subst}
use trustedoss_portal.Prelude.{
  ◌≡◌, ◌≤◌, refl, ap, sym, ◌∙◌, inl, inr, Bool, true, false, ◌||◌, Option, none, some, List, [],
  ◌∷◌, ◌==◌, Uuid, any, count_if, ok, commit-eq-ok, find, key-find, find-set_row_ne, arith,
  Bool-cases,
}
use trustedoss_portal.Model.{Role, User, Membership, Project, Database}
use trustedoss_portal.Security.{
  CurrentUser, current_user_of, is_super, is_super_admin, is_admin_role, dict_set, dict_get,
  team_roles_from, has_team_admin,
}
use trustedoss_portal.Security.Isolation.{
  in_team, admin_of, dict_get-dict_set, has_team_admin_lem, is_super-current_user_of,
  has_team_admin-current_user_of,
}
use trustedoss_portal.Scans.Rows.{project_id_of}
use trustedoss_portal.Projects.{
  ProjectUpdate, writes_as, can_write_project, check_write, edited, put_project, update_project,
}
use trustedoss_portal.Projects.Writes.{check_write-Written}
use trustedoss_portal.Projects.Slugs.{edited-KeepsSlug, edited-id}

abbrev super_role : Option Role → Bool
super_role none = false
super_role (some r) = is_super_admin r

-- A role in the dict that is super_admin comes from a row.
super_listed :
    (t : Uuid) (d : List (Uuid × Role)) (ms : List Membership)
    → super_role (dict_get t (team_roles_from d ms)) ≡ true
    → (super_role (dict_get t d) || any (λ (m : Membership). is_super_admin m.role) ms) ≡ true
unfolding team_roles_from
super_listed t d [] h = ground (arith, h)
super_listed t d (m ∷ ms) h =
    let ih = super_listed t (dict_set m.team_id m.role d) ms h in
    elim (Bool-cases (m.team_id == t)) [
      | inl here ↦ ground (arith, ih, dict_get-dict_set m.team_id t m.role d)
      | inr other ↦ ground (arith, ih, dict_get-dict_set m.team_id t m.role d)
    ]

admin_or_super : (r : Option Role) → is_admin_role r ≡ (writes_as r || super_role r)
admin_or_super none = refl
admin_or_super (some Role.super_admin) = refl
admin_or_super (some Role.team_admin) = refl
admin_or_super (some Role.developer) = refl
admin_or_super (some (Role.other s)) = refl

no_super_role :
    (user : User) (ms : List Membership) (t : Uuid)
    → is_super (current_user_of user ms) ≡ false
    → super_role (dict_get t (current_user_of user ms).team_roles) ≡ false
unfolding current_user_of dict_get
no_super_role user ms t plain =
    elim (Bool-cases (super_role (dict_get t (team_roles_from [] ms)))) [
      | inl listed ↦
          let from : any (λ (m : Membership). is_super_admin m.role) ms ≡ true =
            super_listed t [] ms listed in
          let e : (user.is_superuser || any (λ (m : Membership). is_super_admin m.role) ms)
              ≡ false =
            sym (is_super-current_user_of user ms) ∙ plain in
          absurd (ground (arith, from, e))
      | inr other ↦ other
    ]

has_team_admin_same :
    (actor : CurrentUser) (p : Project)
    → (is_super actor || writes_as (dict_get p.team_id actor.team_roles))
      ≡ (is_super actor || is_admin_role (dict_get p.team_id actor.team_roles))
    → can_write_project actor p ≡ has_team_admin actor p.team_id
unfolding can_write_project
has_team_admin_same actor p same = same ∙ sym (has_team_admin_lem actor p.team_id)

-- For a principal built from its rows, the check of this service is the team-admin check of the triage and approval services: a membership with the role super_admin, which only the latter accepts, bypasses both.
pub can_write_project-has_team_admin :
    (user : User) (ms : List Membership) (p : Project)
    → can_write_project (current_user_of user ms) p
      ≡ has_team_admin (current_user_of user ms) p.team_id
unfolding can_write_project
can_write_project-has_team_admin user ms p =
    let actor = current_user_of user ms in
    let role = dict_get p.team_id actor.team_roles in
    has_team_admin_same actor p (elim (Bool-cases (is_super actor)) [
      | inl super ↦
          ap (λ b. b || writes_as role) super ∙ sym (ap (λ b. b || is_admin_role role) super)
      | inr plain ↦
          let e : is_admin_role role ≡ (writes_as role || super_role role) = admin_or_super role in
          let n = no_super_role user ms p.team_id plain in
          ap (λ b. is_super actor || b) (ground (arith, e, n))
    ])

abbrev pub team_of : Option Project → Option Uuid
team_of none = none
team_of (some p) = some p.team_id

-- If an update succeeds, and its actor is the principal of a user with at most one membership in the
-- project's team, then the user bypasses the team checks or that membership is an admin's: the rows of
-- other teams do not count. The project stays in its team, and every other project is as before.
pub update_project-writer :
    (db : Database) (req : ProjectUpdate) (user : User) (ms : List Membership) (p : Project)
    (j : Uuid)
    → req.actor ≡ current_user_of user ms
    → count_if (in_team p.team_id) ms ≤ 1
    → (update_project db req).0 ≡ ok p
    → (req.project_id == j) ≡ false
    → ((is_super (current_user_of user ms) || any (admin_of p.team_id) ms) ≡ true)
      × (team_of (find project_id_of req.project_id db.projects) ≡ some p.team_id)
      × (find project_id_of j (update_project db req).1.projects ≡ find project_id_of j db.projects)
unfolding update_project
update_project-writer db req user ms p j same lone h other =
    let (checked, saved) =
      commit-eq-ok (check_write db req.actor req.project_id (edited req))
        (put_project req.project_id db) db h in
    let w = check_write-Written db req.actor req.project_id (edited req) p checked in
    let (team, _) = edited-KeepsSlug req w.before p w.changed in
    let writer : can_write_project (current_user_of user ms) w.before ≡ true =
      subst (λ a. can_write_project a w.before ≡ true) same w.writer in
    let admin : has_team_admin (current_user_of user ms) p.team_id ≡ true =
      ap (has_team_admin (current_user_of user ms)) team
      ∙ sym (can_write_project-has_team_admin user ms w.before)
      ∙ writer in
    let kept : p.id ≡ req.project_id =
      edited-id req w.before p w.changed
      ∙ key-find project_id_of req.project_id db.projects w.before w.found in
    (
      sym (has_team_admin-current_user_of user ms p.team_id lone) ∙ admin,
      ap team_of w.found ∙ ap some (sym team),
      ap (λ (d : Database). find project_id_of j d.projects) saved
          ∙ find-set_row_ne project_id_of req.project_id j p db.projects kept other,
    )
