-- ===== src/ApiKeys.antt =====
-- apps/backend/services/api_key_service.py and core/api_key_auth.py: the API keys of CI clients,
-- issued, listed, revoked and presented in a header. passlib's bcrypt is the parameter `Hasher`; a
-- hash is salted, so each draw of `secrets` comes with its salt. Constraints and foreign keys
-- are those of models/api_key.py. A key's name is within its column's length.
pub mod Bearer
pub mod Present
mod Examples
pub mod Steps
use trustedoss_portal.Prelude.{
  ℕ, zero, suc, ◌+◌, String, Bool, true, false, not, ◌&&◌, ◌||◌, Option, none, some, List, [], ◌∷◌,
  map, select, ltb, leb, ◌==◌, holds, is_some, if◌then◌else◌, Uuid, Timestamp, Text, text_eq, take,
  any, count_if, contains, Result, ok, err, guard, ◌>>=◌, ◌>>◌, require, find, find_by,
  update_where, order_by, page_of, clamp_size,
}
use trustedoss_portal.Model.{
  Role, KeyScope, org, team, project, ApiKey, Project, Team, User, Membership, Database,
}
use trustedoss_portal.Security.{CurrentUser, is_super, dict_get, current_user_of, max_role}
use trustedoss_portal.ApiKeys.Bearer.{
  generate_prefix, token_urlsafe, format_plaintext, parse_bearer, bearer_token,
}

pub data KeyError : Type 0 where
  not_found forbidden scope_mismatch issue_failed : KeyError

-- `_pwd_context.hash` under a salt, and `_pwd_context.verify`; none where it raises.
pub record Hasher : Type 0 where
  pub hash : ℕ → Text → Text
  pub verify : Text → Text → Option Bool

unfoldable pub hash_password : Hasher → ℕ → Text → Text
hash_password h salt plain = h.hash salt (take 72 plain)

abbrev pub verified : Option Bool → Bool
verified none = false
verified (some b) = b

unfoldable pub verify_password : Hasher → Text → Text → Bool
verify_password h plain hashed = verified (h.verify (take 72 plain) hashed)

abbrev pub is_team_admin_role : Option Role → Bool
is_team_admin_role (some Role.team_admin) = true
is_team_admin_role _ = false

-- `value is not None and value in ids`
abbrev pub within : Option Uuid → List Uuid → Bool
within none ids = false
within (some i) ids = contains i ids

-- `team_id is not None and actor.team_roles.get(team_id) == "team_admin"`
abbrev pub administers : CurrentUser → Option Uuid → Bool
administers actor none = false
administers actor (some t) = is_team_admin_role (dict_get t actor.team_roles)

-- `_can_issue_at_scope`
issues_at : CurrentUser → KeyScope → Option Uuid → Option Uuid → Bool
issues_at actor org team_id project_team_id = false
issues_at actor team team_id project_team_id = administers actor team_id
issues_at actor project team_id project_team_id = within project_team_id actor.team_ids
issues_at actor (KeyScope.other s) team_id project_team_id = false

pub can_issue_at_scope : CurrentUser → KeyScope → Option Uuid → Option Uuid → Bool
unfolding issues_at
can_issue_at_scope actor scope team_id project_team_id =
    if is_super actor then true else issues_at actor scope team_id project_team_id

abbrev pub is_team_scope : KeyScope → Bool
is_team_scope team = true
is_team_scope _ = false

abbrev pub is_project_scope : KeyScope → Bool
is_project_scope project = true
is_project_scope _ = false

-- `_can_view_key`
pub can_view_key : CurrentUser → ApiKey → Bool
can_view_key actor key =
    is_super actor
    || (holds key.created_by_user_id actor.id
        || ((is_team_scope key.scope && within key.team_id actor.team_ids)
            || (is_project_scope key.scope
                && (is_some key.project_id && within key.team_id actor.team_ids))))

-- `_can_revoke_key`
pub can_revoke_key : CurrentUser → ApiKey → Bool
can_revoke_key actor key =
    is_super actor || (holds key.created_by_user_id actor.id || administers actor key.team_id)

pub record IssueRequest : Type 0 where
  pub actor : CurrentUser
  pub name : String
  pub scope : KeyScope
  pub team_id : Option Uuid
  pub project_id : Option Uuid

-- The scope and its identifiers agree: the preflight, and `ck_api_keys_scope_consistency` with
-- `ck_api_keys_scope_values`.
pub scope_consistent : KeyScope → Option Uuid → Option Uuid → Bool
scope_consistent org team_id project_id = not (is_some team_id) && not (is_some project_id)
scope_consistent team team_id project_id = is_some team_id && not (is_some project_id)
scope_consistent project team_id project_id = is_some project_id
scope_consistent (KeyScope.other s) team_id project_id = false

-- What one attempt draws, and what the database assigns to its row.
pub record Draw : Type 0 where
  pub prefix_bytes : List ℕ
  pub secret_bytes : List ℕ
  pub salt : ℕ
  pub id : Uuid
  pub now : Timestamp

abbrev pub draw_plaintext : Draw → Text
draw_plaintext d = format_plaintext (generate_prefix d.prefix_bytes) (token_urlsafe d.secret_bytes)

abbrev pub new_key : Hasher → IssueRequest → Option Uuid → Draw → ApiKey
new_key h req effective_team d = record {
  id = d.id;
  key_prefix = generate_prefix d.prefix_bytes;
  key_hash = hash_password h d.salt (draw_plaintext d);
  name = req.name;
  scope = req.scope;
  team_id = effective_team;
  project_id = req.project_id;
  created_by_user_id = some req.actor.id;
  created_at = d.now;
  last_used_at = none;
  revoked_at = none;
  revoked_by_user_id = none;
}

abbrev pub has_prefix : Text → ApiKey → Bool
has_prefix prefix key = text_eq key.key_prefix prefix

-- A foreign key: null, or the identifier of a row.
abbrev pub refers : Option Uuid → (Uuid → Bool) → Bool
refers none known = true
refers (some i) known = known i

-- The commit of an insert succeeds: the keys are unique, the checks hold, the references exist.
pub insertable : Database → ApiKey → Bool
unfolding scope_consistent
insertable db key =
    not (any (has_prefix key.key_prefix) db.api_keys)
    && (not (any (λ (k : ApiKey). k.id == key.id) db.api_keys)
        && (scope_consistent key.scope key.team_id key.project_id
            && (refers key.team_id (λ i. any (λ (t : Team). t.id == i) db.teams)
                && (refers key.project_id (λ i. any (λ (p : Project). p.id == i) db.projects)
                    && refers key.created_by_user_id
                        (λ i. any (λ (u : User). u.id == i) db.users)))))

abbrev pub with_keys : Database → List ApiKey → Database
with_keys db keys = record db { api_keys = keys }

-- The loop over `range(_PREFIX_RETRIES)`: any integrity error is taken for a collision.
pub issue_attempts :
    Hasher
    → Database
    → IssueRequest
    → Option Uuid
    → (ℕ → Draw)
    → ℕ
    → ℕ
    → Result KeyError (ApiKey × Text) × Database
unfolding insertable
issue_attempts h db req effective_team draws attempt zero = (err issue_failed, db)
issue_attempts h db req effective_team draws attempt (suc left) =
    let next = issue_attempts h db req effective_team draws (attempt + 1) left in
    let key = new_key h req effective_team (draws attempt) in
    if insertable db key
    then (ok (key, draw_plaintext (draws attempt)), with_keys db (key ∷ db.api_keys))
    else next

abbrev pub prefix_retries : ℕ
prefix_retries = 5

-- The project's team, for a key of that scope.
abbrev pub team_of_project : Database → Option Uuid → Option Uuid
team_of_project seen none = none
team_of_project seen (some i) = elim (find (λ (p : Project). p.id) i seen.projects) [
  | none ↦ none
  | some p ↦ some p.team_id
]

pub project_team : Database → IssueRequest → Result KeyError (Option Uuid)
project_team seen req =
    if is_project_scope req.scope
    then (do t ← require (team_of_project seen req.project_id) not_found; ok (some t))
    else ok none

-- `issue_api_key` up to the loop; the answer is the team that the row is written with.
pub check_issue : Database → IssueRequest → Result KeyError (Option Uuid)
unfolding scope_consistent project_team can_issue_at_scope
check_issue seen req = do
  guard (scope_consistent req.scope req.team_id req.project_id) scope_mismatch
  project_team_id ← project_team seen req
  guard (can_issue_at_scope req.actor req.scope req.team_id project_team_id) forbidden
  ok (if is_project_scope req.scope then project_team_id else req.team_id)

abbrev pub issue_checked :
    Hasher
    → Database
    → IssueRequest
    → (ℕ → Draw)
    → Result KeyError (Option Uuid)
    → Result KeyError (ApiKey × Text) × Database
issue_checked h db req draws (err e) = (err e, db)
issue_checked h db req draws (ok effective_team) =
    issue_attempts h db req effective_team draws 0 prefix_retries

-- `issue_api_key`: the checks read the snapshot `seen`.
pub issue_api_key :
    Hasher
    → Database
    → Database
    → IssueRequest
    → (ℕ → Draw)
    → Result KeyError (ApiKey × Text) × Database
issue_api_key h seen db req draws = issue_checked h db req draws (check_issue seen req)
