-- ===== src/Security.antt =====
-- apps/backend/core/security.py and core/authz.py: the authenticated principal, the role order,
-- the route-level gates and the team check that the services share. Decoding the bearer token is
-- not here: the principal is built from the user row and the membership rows that it names.
mod Rank
pub mod Isolation
mod Gates
use trustedoss_portal.Prelude.{
  ℕ, String, Bool, true, false, not, ◌&&◌, ◌||◌, Option, none, some, List, [], ◌∷◌, map, ltb, leb,
  ◌==◌, if◌then◌else◌, Uuid, contains, Result, ok, err, guard, ◌>>=◌, ◌>>◌, require,
}
use trustedoss_portal.Model.{Role, User, Membership}

-- `_ROLE_PRIORITY.get(role, 0)`
unfoldable pub role_priority : Role → ℕ
role_priority Role.super_admin = 3
role_priority Role.team_admin = 2
role_priority Role.developer = 1
role_priority (Role.other _) = 0

abbrev pub is_super_admin : Role → Bool
is_super_admin Role.super_admin = true
is_super_admin _ = false

-- `role in {"team_admin", "super_admin"}`
abbrev pub is_admin_role : Option Role → Bool
is_admin_role (some Role.super_admin) = true
is_admin_role (some Role.team_admin) = true
is_admin_role _ = false

pub record CurrentUser : Type 0 where
  pub id : Uuid
  pub email : String
  pub role : Role
  pub team_ids : List Uuid
  pub team_roles : List (Uuid × Role)
  pub is_active : Bool
  pub is_superuser : Bool

-- `max(roles, key=…)`: the first of the elements with the greatest priority.
unfoldable pub max_role : Role → List Role → Role
max_role best [] = best
max_role best (r ∷ rs) =
    max_role (if ltb (role_priority best) (role_priority r) then r else best) rs

unfoldable pub highest_role : List Role → Bool → Role
unfolding max_role
highest_role roles true = Role.super_admin
highest_role [] false = Role.developer
highest_role (r ∷ rs) false = max_role r rs

unfoldable pub has_at_least : Role → Role → Bool
has_at_least actual required = leb (role_priority required) (role_priority actual)

-- A `dict` of roles by team: `d[k] = v` overwrites in place, or adds at the end.
pub dict_set : Uuid → Role → List (Uuid × Role) → List (Uuid × Role)
dict_set k v [] = (k, v) ∷ []
dict_set k v ((j, w) ∷ d) = if j == k then (k, v) ∷ d else (j, w) ∷ dict_set k v d

unfoldable pub dict_get : Uuid → List (Uuid × Role) → Option Role
dict_get k [] = none
dict_get k ((j, w) ∷ d) = if j == k then some w else dict_get k d

-- `{m.team_id: m.role for m in memberships}`
unfoldable pub team_roles_from : List (Uuid × Role) → List Membership → List (Uuid × Role)
unfolding dict_set
team_roles_from d [] = d
team_roles_from d (m ∷ ms) = team_roles_from (dict_set m.team_id m.role d) ms

-- The principal that `_load_current_user` builds from the rows.
unfoldable pub current_user_of : User → List Membership → CurrentUser
unfolding highest_role team_roles_from dict_set
current_user_of user memberships = record {
  id = user.id;
  email = user.email;
  role = highest_role (map (λ (m : Membership). m.role) memberships) user.is_superuser;
  team_ids = map (λ (m : Membership). m.team_id) memberships;
  team_roles = team_roles_from [] memberships;
  is_active = user.is_active;
  is_superuser = user.is_superuser;
}

-- `actor.is_superuser or actor.role == "super_admin"`
unfoldable pub is_super : CurrentUser → Bool
is_super actor = actor.is_superuser || is_super_admin actor.role

-- core/authz.py
unfoldable pub can_access_team : CurrentUser → Uuid → Bool
unfolding is_super
can_access_team actor team_id = if is_super actor then true else contains team_id actor.team_ids

-- `raise deny()` unless the actor can access the team.
unfoldable pub assert_team_access {ℓ} : {E : Type ℓ} → CurrentUser → Uuid → E → Result E (Unit {0})
unfolding can_access_team
assert_team_access actor team_id deny = guard (can_access_team actor team_id) deny

-- `_role_in_team` and `_has_team_admin`, the same in the vulnerability and approval services.
unfoldable pub role_in_team : CurrentUser → Uuid → Option Role
unfolding is_super dict_get
role_in_team actor team_id =
    if is_super actor then some Role.super_admin else dict_get team_id actor.team_roles

unfoldable pub has_team_admin : CurrentUser → Uuid → Bool
unfolding role_in_team
has_team_admin actor team_id = is_admin_role (role_in_team actor team_id)

-- The status code of an `HTTPException`.
pub data HttpError : Type 0 where
  unauthorized forbidden not_found : HttpError

-- `current_user is None or not current_user.is_active` raises 401.
authenticated : Option CurrentUser → Result HttpError CurrentUser
authenticated none = err HttpError.unauthorized
authenticated (some user) = if user.is_active then ok user else err HttpError.unauthorized

unfoldable pub require_role : Role → Option CurrentUser → Result HttpError CurrentUser
unfolding authenticated
require_role role current_user = do
  user ← authenticated current_user
  guard (has_at_least user.role role) HttpError.forbidden
  ok user

unfoldable pub require_super_admin_or_404 : Option CurrentUser → Result HttpError CurrentUser
unfolding authenticated is_super
require_super_admin_or_404 current_user = do
  user ← authenticated current_user
  guard (is_super user) HttpError.not_found
  ok user

unfoldable pub require_team_member : Uuid → Option CurrentUser → Result HttpError CurrentUser
unfolding authenticated
require_team_member team_id current_user = do
  user ← authenticated current_user
  guard (is_super_admin user.role || contains team_id user.team_ids) HttpError.forbidden
  ok user
