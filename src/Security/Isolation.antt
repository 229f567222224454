-- ===== src/Security/Isolation.antt =====
-- What a principal built from its rows may do in one team: the team's own membership decides.
use trustedoss_portal.Prelude.{
  ◌≤◌, Bool, false, ◌&&◌, ◌||◌, none, some, List, [], ◌∷◌, map, ◌==◌, if◌then◌else◌, Uuid, contains,
  any, count_if, Bool-cases, arith, ◌≡◌, inl, inr, refl, ap, ◌∙◌,
}
use trustedoss_portal.Model.{Role, User, Membership}
use trustedoss_portal.Security.{
  dict_set, dict_get, team_roles_from, CurrentUser, current_user_of, is_super, is_super_admin,
  is_admin_role, can_access_team, has_team_admin,
}
use trustedoss_portal.Security.Rank.{is_super_admin-highest_role}

abbrev pub in_team : Uuid → Membership → Bool
in_team t m = m.team_id == t

pub dict_get-dict_set :
    (k j : Uuid) (v : Role) (d : List (Uuid × Role))
    → dict_get j (dict_set k v d) ≡ (if k == j then some v else dict_get j d)
unfolding dict_get dict_set
dict_get-dict_set k j v [] = refl
dict_get-dict_set k j v ((i, w) ∷ d) = ground (arith, dict_get-dict_set k j v d)

-- A team with no membership among the rows keeps what the dict held.
dict_get-team_roles_absent :
    (t : Uuid) (d : List (Uuid × Role)) (ms : List Membership)
    → count_if (in_team t) ms ≡ 0
    → dict_get t (team_roles_from d ms) ≡ dict_get t d
unfolding team_roles_from
dict_get-team_roles_absent t d [] h = refl
dict_get-team_roles_absent t d (m ∷ ms) h =
    dict_get-team_roles_absent t (dict_set m.team_id m.role d) ms (ground arith)
    ∙ ground (arith, dict_get-dict_set m.team_id t m.role d)

abbrev pub admin_of : Uuid → Membership → Bool
admin_of t m = (m.team_id == t) && is_admin_role (some m.role)

any_admin_absent :
    (t : Uuid) (ms : List Membership) → count_if (in_team t) ms ≡ 0 → any (admin_of t) ms ≡ false
any_admin_absent t [] h = refl
any_admin_absent t (m ∷ ms) h = ground (arith, any_admin_absent t ms)

-- `uq_memberships_user_team`: at most one row for a team, so the dict holds that row's role.
admin-team_roles :
    (t : Uuid) (d : List (Uuid × Role)) (ms : List Membership)
    → count_if (in_team t) ms ≤ 1
    → dict_get t d ≡ none
    → is_admin_role (dict_get t (team_roles_from d ms)) ≡ any (admin_of t) ms
unfolding team_roles_from
admin-team_roles t d [] h e = rw e
admin-team_roles t d (m ∷ ms) h e = elim (Bool-cases (m.team_id == t)) [
  | inl here ↦ ground (
    arith,
    dict_get-team_roles_absent t (dict_set m.team_id m.role d) ms,
    dict_get-dict_set m.team_id t m.role d,
    any_admin_absent t ms,
  )
  | inr other ↦ ground (
    arith,
    admin-team_roles t (dict_set m.team_id m.role d) ms,
    dict_get-dict_set m.team_id t m.role d,
  )
]

any-map-role :
    (ms : List Membership)
    → any is_super_admin (map (λ (m : Membership). m.role) ms)
      ≡ any (λ (m : Membership). is_super_admin m.role) ms
any-map-role [] = refl
any-map-role (m ∷ ms) = ap (λ b. is_super_admin m.role || b) (any-map-role ms)

contains-team_ids :
    (t : Uuid) (ms : List Membership)
    → contains t (map (λ (m : Membership). m.team_id) ms) ≡ any (in_team t) ms
contains-team_ids t [] = refl
contains-team_ids t (m ∷ ms) = ap (λ b. (m.team_id == t) || b) (contains-team_ids t ms)

pub can_access_team_lem :
    (a : CurrentUser) (t : Uuid) → can_access_team a t ≡ (is_super a || contains t a.team_ids)
unfolding can_access_team
can_access_team_lem a t = ground arith

pub has_team_admin_lem :
    (a : CurrentUser) (t : Uuid)
    → has_team_admin a t ≡ (is_super a || is_admin_role (dict_get t a.team_roles))
unfolding has_team_admin
has_team_admin_lem a t = ground arith

-- Who bypasses the team checks.
pub is_super-current_user_of :
    (user : User) (ms : List Membership)
    → is_super (current_user_of user ms)
      ≡ (user.is_superuser || any (λ (m : Membership). is_super_admin m.role) ms)
unfolding is_super current_user_of
is_super-current_user_of user ms = elim (Bool-cases user.is_superuser) [
  | inl su ↦ rw su
  | inr plain ↦
      rw plain (is_super_admin-highest_role (map (λ (m : Membership). m.role) ms) ∙ any-map-role ms)
]

-- The team of a resource is open to a user exactly when the user bypasses the check or has a membership row in
-- that team.
pub can_access_team-current_user_of :
    (user : User) (ms : List Membership) (t : Uuid)
    → can_access_team (current_user_of user ms) t
      ≡ (is_super (current_user_of user ms) || any (in_team t) ms)
can_access_team-current_user_of user ms t =
    can_access_team_lem (current_user_of user ms) t
    ∙ ap (λ b. is_super (current_user_of user ms) || b)
        (unfold current_user_of in contains-team_ids t ms)

-- A user with at most one membership row in a team has team-admin rights there exactly when the user
-- bypasses the check or that row is an admin's: the rows of other teams do not count.
pub has_team_admin-current_user_of :
    (user : User) (ms : List Membership) (t : Uuid)
    → count_if (in_team t) ms ≤ 1
    → has_team_admin (current_user_of user ms) t
      ≡ (is_super (current_user_of user ms) || any (admin_of t) ms)
has_team_admin-current_user_of user ms t h =
    has_team_admin_lem (current_user_of user ms) t
    ∙ ap (λ b. is_super (current_user_of user ms) || b)
        (unfold current_user_of dict_get in admin-team_roles t [] ms h refl)
