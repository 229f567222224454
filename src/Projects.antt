-- ===== src/Projects.antt =====
-- apps/backend/services/project_service.py: projects created, listed, shown, changed and archived.
-- `matches` is the database's `ILIKE`, which is applied to the pattern of the search. A payload has
-- passed the validation of schemas/scan.py; the audit context and the logging are left out.
pub mod Listed
pub mod Writes
pub mod Slugs
pub mod Roles
mod Examples
use Prim.Native.String.{◌++◌}
use trustedoss_portal.Prelude.{
  ℕ, String, Bool, true, false, not, ◌&&◌, ◌||◌, Option, none, some, List, [], ◌∷◌, select, ltb,
  leb, ◌==◌, is_some, holds, str_eq, if◌then◌else◌, Uuid, Timestamp, Text, any, contains, count_if,
  Result, ok, err, guard, ◌>>=◌, ◌>>◌, require, commit, find, set_row, order_by, page_of,
  clamp_size, Patch, patched, patched_nullable,
}
use trustedoss_portal.Model.{Role, Team, User, ProjectVisibility, Project, Database}
use trustedoss_portal.Security.{CurrentUser, is_super, assert_team_access, dict_get}
use trustedoss_portal.Scans.Rows.{project_id_of}

pub data ProjectError : Type 0 where
  project_not_found slug_conflict forbidden : ProjectError

-- `role_in_team == "team_admin"`
abbrev pub writes_as : Option Role → Bool
writes_as (some Role.team_admin) = true
writes_as _ = false

-- `_can_write_project`: the role in the project's own team, not the highest one.
unfoldable pub can_write_project : CurrentUser → Project → Bool
can_write_project actor p = is_super actor || writes_as (dict_get p.team_id actor.team_roles)

pub record ProjectCreate : Type 0 where
  pub actor : CurrentUser
  pub team_id : Uuid
  pub name : String
  pub slug : String
  pub description : Option String
  pub git_url : Option Text
  pub default_branch : Option String
  pub visibility : ProjectVisibility
  pub fresh_id : Uuid
  pub now : Timestamp

abbrev pub new_project : ProjectCreate → Project
new_project req = record {
  id = req.fresh_id;
  team_id = req.team_id;
  name = req.name;
  slug = req.slug;
  description = req.description;
  default_branch = req.default_branch;
  visibility = req.visibility;
  archived_at = none;
  created_by_user_id = some req.actor.id;
  latest_scan_id = none;
  git_url = req.git_url;
  webhook_secret = none;
  webhook_provider = none;
  updated_at = req.now;
}

-- `uq_projects_team_slug`
abbrev pub slug_in : Uuid → String → Project → Bool
slug_in team_id slug p = (p.team_id == team_id) && str_eq p.slug slug

-- The access check, then the insert. Every exception of the commit, from the primary key, a foreign
-- key or the unique constraint, is answered as a slug conflict.
unfoldable pub check_create : Database → ProjectCreate → Result ProjectError Project
check_create db req = do
  assert_team_access req.actor req.team_id forbidden
  guard (not (any (λ (p : Project). p.id == req.fresh_id) db.projects)) slug_conflict
  guard (any (λ (t : Team). t.id == req.team_id) db.teams) slug_conflict
  guard (any (λ (u : User). u.id == req.actor.id) db.users) slug_conflict
  guard (not (any (slug_in req.team_id req.slug) db.projects)) slug_conflict
  ok (new_project req)

abbrev pub with_project : Database → Project → Database
with_project db p = record db { projects = p ∷ db.projects }

unfoldable pub create_project : Database → ProjectCreate → Result ProjectError Project × Database
create_project db req = commit (check_create db req) (with_project db) db

-- The query parameters of `list_projects`.
pub record ProjectFilter : Type 0 where
  pub team_id : Option Uuid
  pub include_archived : Bool
  pub q : Option String

-- The teams that the query is clamped to; no team is no clause.
abbrev pub scoped_team_ids : CurrentUser → Option Uuid → Result ProjectError (List Uuid)
scoped_team_ids actor none = ok (if is_super actor then [] else actor.team_ids)
scoped_team_ids actor (some team_id) = do
  guard (is_super actor || contains team_id actor.team_ids) forbidden
  ok (team_id ∷ [])

abbrev pub in_scope : List Uuid → Project → Bool
in_scope [] p = true
in_scope (team_id ∷ team_ids) p = contains p.team_id (team_id ∷ team_ids)

-- The name or the slug matches; an empty text is no search.
abbrev pub searched : (String → String → Bool) → (String → String) → Option String → Project → Bool
searched matches strip none p = true
searched matches strip (some q) p =
    if str_eq q ""
    then true
    else matches ("%" ++ strip q ++ "%") p.name || matches ("%" ++ strip q ++ "%") p.slug

abbrev pub no_ids : List Uuid → Bool
no_ids [] = true
no_ids (_ ∷ _) = false

-- The list is empty without a query.
abbrev pub has_no_team : CurrentUser → Option Uuid → Bool
has_no_team actor (some team_id) = false
has_no_team actor none = not (is_super actor) && no_ids actor.team_ids

-- The `WHERE` clauses of the list and of the count.
abbrev pub wanted :
    (String → String → Bool) → (String → String) → List Uuid → ProjectFilter → Project → Bool
wanted matches strip team_ids f p =
    in_scope team_ids p
    && ((f.include_archived || not (is_some p.archived_at)) && searched matches strip f.q p)

-- `ORDER BY updated_at DESC, id DESC`
abbrev pub latest_project_first : Project → Project → Bool
latest_project_first a b =
    ltb b.updated_at a.updated_at || ((a.updated_at == b.updated_at) && leb b.id a.id)

abbrev pub project_page : (Project → Bool) → ℕ → ℕ → List Project → List Project × ℕ
project_page test page size projects = (
  page_of page (clamp_size size 100) (order_by latest_project_first (select test projects)),
  count_if test projects,
)

pub list_projects :
    (String → String → Bool)
    → (String → String)
    → Database
    → CurrentUser
    → ProjectFilter
    → ℕ
    → ℕ
    → Result ProjectError (List Project × ℕ)
list_projects matches strip db actor f page size = do
  team_ids ← scoped_team_ids actor f.team_id
  ok (
      if has_no_team actor f.team_id
      then ([], 0)
      else project_page (wanted matches strip team_ids f) page size db.projects)

-- `_load_project`
abbrev pub load_project : Database → Uuid → Result ProjectError Project
load_project db project_id = require (find project_id_of project_id db.projects) project_not_found

unfoldable pub get_project : Database → CurrentUser → Uuid → Result ProjectError Project
get_project db actor project_id = do
  p ← load_project db project_id
  assert_team_access actor p.team_id forbidden
  ok p

pub record ProjectUpdate : Type 0 where
  pub actor : CurrentUser
  pub project_id : Uuid
  pub name : Patch String
  pub description : Patch String
  pub git_url : Patch Text
  pub default_branch : Patch String
  pub visibility : Patch ProjectVisibility
  pub now : Timestamp

-- The row after `setattr` for every field that was sent.
abbrev pub edited : ProjectUpdate → Project → Result ProjectError Project
edited req p = do
  name ← patched slug_conflict req.name p.name
  visibility ← patched slug_conflict req.visibility p.visibility
  ok (record p {
    name = name;
    visibility = visibility;
    description = patched_nullable req.description p.description;
    git_url = patched_nullable req.git_url p.git_url;
    default_branch = patched_nullable req.default_branch p.default_branch;
    updated_at = req.now;
  })

unfoldable pub check_write :
    Database
    → CurrentUser
    → Uuid
    → (Project → Result ProjectError Project)
    → Result ProjectError Project
check_write db actor project_id change = do
  p ← load_project db project_id
  guard (can_write_project actor p) forbidden
  change p

abbrev pub put_project : Uuid → Database → Project → Database
put_project project_id db p = record db {
  projects = set_row project_id_of project_id p db.projects;
}

unfoldable pub update_project : Database → ProjectUpdate → Result ProjectError Project × Database
update_project db req =
    commit (check_write db req.actor req.project_id (edited req)) (put_project req.project_id db) db

-- An archived row is left as it is.
abbrev pub archived_row : Timestamp → Project → Project
archived_row now p =
    if is_some p.archived_at then p else record p { archived_at = some now; updated_at = now }

unfoldable pub archive_project :
    Database → CurrentUser → Uuid → Timestamp → Result ProjectError Project × Database
archive_project db actor project_id now =
    commit (check_write db actor project_id (λ p. ok (archived_row now p)))
      (put_project project_id db) db

-- One request that writes.
pub data Request : Type 0 where
  create : ProjectCreate → Request
  update : ProjectUpdate → Request
  archive : CurrentUser → Uuid → Timestamp → Request

unfoldable pub step : Database → Request → Database
step db (create req) = (create_project db req).1
step db (update req) = (update_project db req).1
step db (archive actor project_id now) = (archive_project db actor project_id now).1

unfoldable pub run : Database → List Request → Database
unfolding step
run db [] = db
run db (q ∷ qs) = run (step db q) qs
