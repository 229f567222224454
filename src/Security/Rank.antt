-- ===== src/Security/Rank.antt =====
-- The role order: which roles a user's highest role covers.
use trustedoss_portal.Prelude.{
  ◌≤◌, true, false, ◌||◌, List, [], ◌∷◌, ltb, any, Bool-cases, arith, ◌≡◌, inl, inr, refl, ◌∙◌,
}
use trustedoss_portal.Model.{Role}
use trustedoss_portal.Security.{role_priority, max_role, highest_role, has_at_least, is_super_admin}

role_priority-le : (r : Role) → role_priority r ≤ 3
unfolding role_priority
role_priority-le Role.super_admin = omega arith
role_priority-le _ = omega arith

pub has_at_least-super_admin : (r : Role) → has_at_least Role.super_admin r ≡ true
unfolding has_at_least role_priority
has_at_least-super_admin Role.super_admin = refl
has_at_least-super_admin _ = refl

-- The maximum covers a role exactly when one of the elements does.
has_at_least-max_role :
    (r best : Role) (rs : List Role)
    → has_at_least (max_role best rs) r ≡ (has_at_least best r || any (λ q. has_at_least q r) rs)
unfolding has_at_least max_role
has_at_least-max_role r best [] = ground arith
has_at_least-max_role r best (q ∷ rs) =
    elim (Bool-cases (ltb (role_priority best) (role_priority q))) [
      | inl lt ↦ rw lt (ground (arith, has_at_least-max_role r q rs))
      | inr ge ↦ rw ge (ground (arith, has_at_least-max_role r best rs))
    ]

-- The roles that count for a user: those of the memberships, or developer if there is none.
abbrev pub effective_roles : List Role → List Role
effective_roles [] = Role.developer ∷ []
effective_roles (r ∷ rs) = r ∷ rs

pub has_at_least-highest_role :
    (r : Role) (roles : List Role)
    → has_at_least (highest_role roles false) r
      ≡ any (λ q. has_at_least q r) (effective_roles roles)
unfolding highest_role
has_at_least-highest_role r [] = ground arith
has_at_least-highest_role r (q ∷ rs) = has_at_least-max_role r q rs

is_super_admin_iff : (r : Role) → is_super_admin r ≡ has_at_least r Role.super_admin
unfolding has_at_least role_priority
is_super_admin_iff Role.super_admin = refl
is_super_admin_iff _ = refl

pub is_super_admin-highest_role :
    (roles : List Role) → is_super_admin (highest_role roles false) ≡ any is_super_admin roles
is_super_admin-highest_role [] = unfold highest_role in refl
is_super_admin-highest_role (r ∷ rs) =
    is_super_admin_iff (highest_role (r ∷ rs) false)
    ∙ has_at_least-highest_role Role.super_admin (r ∷ rs)
    ∙ any_covers (r ∷ rs)
  where
    any_covers :
        (roles : List Role)
        → any (λ q. has_at_least q Role.super_admin) roles ≡ any is_super_admin roles
    any_covers [] = refl
    any_covers (q ∷ qs) = cc (is_super_admin_iff q, any_covers qs)
