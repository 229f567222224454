-- ===== src/Security/Gates.antt =====
-- The route-level gates, for a principal built from its rows.
use trustedoss_portal.Prelude.{
  ◌&&◌, ◌||◌, some, List, map, if◌then◌else◌, Uuid, contains, ok, err, is_ok, any, Bool-cases,
  arith, ◌≡◌, inl, inr, refl, ap, ◌∙◌,
}
use trustedoss_portal.Model.{Role, User, Membership}
use trustedoss_portal.Security.{
  highest_role, has_at_least, CurrentUser, current_user_of, is_super, is_super_admin,
  can_access_team, HttpError, require_role, require_super_admin_or_404, require_team_member,
}
use trustedoss_portal.Security.Rank.{
  effective_roles, has_at_least-highest_role, has_at_least-super_admin,
}
use trustedoss_portal.Security.Isolation.{is_super-current_user_of, can_access_team_lem}

abbrev roles_of : List Membership → List Role
roles_of = map (λ (m : Membership). m.role)

is_ok-require_role :
    (role : Role) (a : CurrentUser)
    → is_ok (require_role role (some a)) ≡ (a.is_active && has_at_least a.role role)
unfolding require_role
is_ok-require_role role a = ground arith

admin_gate :
    (a : CurrentUser)
    → require_super_admin_or_404 (some a) ≡ (
        if a.is_active
        then (if is_super a then ok a else err HttpError.not_found)
        else err HttpError.unauthorized)
unfolding require_super_admin_or_404
admin_gate a = ground arith

covers_role :
    (role : Role) (user : User) (ms : List Membership)
    → has_at_least (current_user_of user ms).role role
      ≡ (user.is_superuser || any (λ q. has_at_least q role) (effective_roles (roles_of ms)))
unfolding current_user_of
covers_role role user ms = elim (Bool-cases user.is_superuser) [
  | inl su ↦ rw su (unfold highest_role in has_at_least-super_admin role)
  | inr plain ↦ rw plain (has_at_least-highest_role role (roles_of ms))
]

-- `require_role(r)` admits a user exactly when the user is active and is a superuser, or has
-- a membership of at least the role r (a user with no membership counts as a developer).
pub require_role-current_user_of :
    (role : Role) (user : User) (ms : List Membership)
    → is_ok (require_role role (some (current_user_of user ms))) ≡ (
        user.is_active
        && (user.is_superuser || any (λ q. has_at_least q role) (effective_roles (roles_of ms))))
require_role-current_user_of role user ms =
    is_ok-require_role role (current_user_of user ms)
    ∙ ap (λ b. (current_user_of user ms).is_active && b) (covers_role role user ms)
    ∙ unfold current_user_of in refl

role_and_flag :
    (user : User) (ms : List Membership)
    → is_super_admin (current_user_of user ms).role ≡ is_super (current_user_of user ms)
unfolding current_user_of is_super
role_and_flag user ms = elim (Bool-cases user.is_superuser) [
  | inl su ↦ rw su (unfold highest_role in refl)
  | inr plain ↦ rw plain refl
]

is_ok-require_team_member :
    (t : Uuid) (a : CurrentUser)
    → is_ok (require_team_member t (some a))
      ≡ (a.is_active && (is_super_admin a.role || contains t a.team_ids))
unfolding require_team_member
is_ok-require_team_member t a = ground arith

-- The route gate `require_team_member`, which looks at the role alone, and the services' team
-- check, which looks at the superuser flag too, agree on every active user.
pub require_team_member-can_access_team :
    (t : Uuid) (user : User) (ms : List Membership)
    → is_ok (require_team_member t (some (current_user_of user ms)))
      ≡ (user.is_active && can_access_team (current_user_of user ms) t)
require_team_member-can_access_team t user ms =
    is_ok-require_team_member t (current_user_of user ms)
    ∙ rw (role_and_flag user ms, can_access_team_lem (current_user_of user ms) t)
        (unfold current_user_of in refl)

-- What the admin gate answers: 401 without an active user, 404 for every active user who is
-- neither a superuser nor holds a super_admin membership, and the user for the rest; never 403.
pub require_super_admin_or_404-answer :
    (user : User) (ms : List Membership)
    → require_super_admin_or_404 (some (current_user_of user ms)) ≡ (
        if user.is_active
        then (if user.is_superuser || any (λ (m : Membership). is_super_admin m.role) ms
            then ok (current_user_of user ms)
            else err HttpError.not_found)
        else err HttpError.unauthorized)
require_super_admin_or_404-answer user ms =
    admin_gate (current_user_of user ms)
    ∙ rw (is_super-current_user_of user ms) (unfold current_user_of in refl)
