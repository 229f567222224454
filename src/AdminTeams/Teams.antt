-- ===== src/AdminTeams/Teams.antt =====
-- apps/backend/services/admin_team_service.py: teams listed, shown, created, changed and deleted.
-- `matches` is the database's `ILIKE` on the name, which is applied to the pattern of the search.
-- The archiving of the projects of a deleted team is undone by the cascade that deletes them; only the
-- audit log sees it. A payload has passed the validation of its route.
pub mod Deleted
use Prim.Native.String.{◌++◌}
use trustedoss_portal.Prelude.{
  ℕ, String, Bool, true, false, not, ◌&&◌, ◌||◌, Option, none, some, List, [], ◌∷◌, map, select,
  ltb, leb, ◌==◌, holds, is_some, str_eq, if◌then◌else◌, Uuid, Timestamp, any, count_if, Result, ok,
  err, guard, ◌>>=◌, ◌>>◌, require, commit, find, find_by, update_where, remove_row, order_by,
  page_of, clamp_size, Patch, patched, patched_nullable,
}
use trustedoss_portal.Model.{
  Role, Organization, Team, User, Membership, Project, Scan, VulnerabilityFinding, LicenseFinding,
  ComponentApproval, ApiKey, WebhookDelivery, Database,
}
use trustedoss_portal.Scans.Rows.{is_active}
use trustedoss_portal.AdminTeams.{AdminTeamError, team_not_found, team_id_of, count_team_members}

-- The errors of this half of the service.
pub data TeamError : Type 0 where
  team_missing slug_conflict has_active_scans no_organization_configured : TeamError

abbrev pub live_project_of : Uuid → Project → Bool
live_project_of team_id p = (p.team_id == team_id) && not (is_some p.archived_at)

-- `_count_team_projects`
abbrev pub count_team_projects : Database → Uuid → ℕ
count_team_projects db team_id = count_if (live_project_of team_id) db.projects

pub record TeamListItem : Type 0 where
  pub team : Team
  pub member_count : ℕ
  pub project_count : ℕ

abbrev pub named_like : (String → String → Bool) → (String → String) → Option String → Team → Bool
named_like matches strip none t = true
named_like matches strip (some search) t =
    if str_eq search "" then true else matches ("%" ++ strip search ++ "%") t.name

abbrev pub newest_team_first : Team → Team → Bool
newest_team_first a b =
    ltb b.created_at a.created_at || ((a.created_at == b.created_at) && leb b.id a.id)

-- `list_teams`
pub list_teams :
    (String → String → Bool)
    → (String → String)
    → Database
    → ℕ
    → ℕ
    → Option String
    → List TeamListItem × ℕ
list_teams matches strip db page page_size search = (
  map
      (λ (t : Team). record {
        team = t;
        member_count = count_team_members db t.id;
        project_count = count_team_projects db t.id;
      })
      (page_of page (clamp_size page_size 200)
        (order_by newest_team_first (select (named_like matches strip search) db.teams))),
  count_if (named_like matches strip search) db.teams,
)

pub record TeamMember : Type 0 where
  pub user : User
  pub role : Role

-- The join of a membership with its user.
abbrev pub joined : List User → List Membership → List TeamMember
joined users [] = []
joined users (m ∷ ms) =
    let rest = joined users ms in
    elim (find (λ (u : User). u.id) m.user_id users) [
      | none ↦ rest
      | some u ↦ record { user = u; role = m.role } ∷ rest
    ]

pub record TeamDetail : Type 0 where
  pub team : Team
  pub project_count : ℕ
  pub members : List TeamMember

-- `get_team_detail`; `before` is the database's order by role and email.
pub get_team_detail :
    (TeamMember → TeamMember → Bool) → Database → Uuid → Result TeamError TeamDetail
get_team_detail before db team_id = do
  team ← require (find team_id_of team_id db.teams) team_missing
  ok (record {
    team = team;
    project_count = count_team_projects db team_id;
    members =
        order_by before
          (joined db.users (select (λ (m : Membership). m.team_id == team_id) db.memberships));
  })

abbrev pub older : Organization → Organization → Bool
older a b = leb a.created_at b.created_at

abbrev pub first_of : List Organization → Option Organization
first_of [] = none
first_of (o ∷ os) = some o

-- `_pick_default_org`
pub pick_default_org : Database → Result TeamError Organization
pick_default_org db =
    require (first_of (order_by older db.organizations)) no_organization_configured

pub record TeamCreate : Type 0 where
  pub name : String
  pub slug : String
  pub description : Option String
  pub fresh_id : Uuid
  pub now : Timestamp

-- `uq_teams_org_slug`
abbrev pub same_slug : Uuid → String → Team → Bool
same_slug organization_id slug t = (t.organization_id == organization_id) && str_eq t.slug slug

abbrev pub new_team : TeamCreate → Organization → Team
new_team req org = record {
  id = req.fresh_id;
  organization_id = org.id;
  name = req.name;
  slug = req.slug;
  description = req.description;
  created_at = req.now;
  updated_at = req.now;
}

pub check_create : Database → Database → TeamCreate → Result TeamError Team
unfolding pick_default_org
check_create seen db req = do
  org ← pick_default_org seen
  guard (any (λ (o : Organization). o.id == org.id) db.organizations) slug_conflict
  guard (not (any (λ (t : Team). t.id == req.fresh_id) db.teams)) slug_conflict
  guard (not (any (same_slug org.id req.slug) db.teams)) slug_conflict
  ok (new_team req org)

abbrev pub with_teams : Database → List Team → Database
with_teams db teams = record db { teams = teams }

-- `create_team`, up to the detail that it answers with.
pub create_team : Database → Database → TeamCreate → Result TeamError Team × Database
create_team seen db req =
    commit (check_create seen db req) (λ team. with_teams db (team ∷ db.teams)) db

pub record TeamUpdate : Type 0 where
  pub name : Patch String
  pub slug : Patch String
  pub description : Patch String
  pub now : Timestamp

-- The row that the update writes, under the constraints of the table.
pub check_update : Database → Uuid → TeamUpdate → Result TeamError Team
check_update db team_id req = do
  team ← require (find team_id_of team_id db.teams) team_missing
  name ← patched slug_conflict req.name team.name
  slug ← patched slug_conflict req.slug team.slug
  guard
      (not (
        any (λ (t : Team). same_slug team.organization_id slug t && not (t.id == team_id))
          db.teams))
      slug_conflict
  ok (record team {
    name = name;
    slug = slug;
    description = patched_nullable req.description team.description;
    updated_at = req.now;
  })

-- `update_team`, up to the detail that it answers with.
pub update_team : Database → Uuid → TeamUpdate → Result TeamError Team × Database
update_team db team_id req =
    commit (check_update db team_id req)
      (λ row. with_teams db (update_where (λ (t : Team). t.id == team_id) (λ _. row) db.teams)) db

abbrev pub in_team : Uuid → Project → Bool
in_team team_id p = p.team_id == team_id

abbrev pub active_on : Project → Scan → Bool
active_on p s = (s.project_id == p.id) && is_active s.status

-- `_team_has_active_scans`
abbrev pub team_has_active_scans : List Project → List Scan → Uuid → Bool
team_has_active_scans projects scans team_id =
    any (λ p. in_team team_id p && any (active_on p) scans) projects

-- A scan, or another row, of a project of the team.
abbrev pub owns_project : List Project → Uuid → Uuid → Bool
owns_project projects team_id project_id =
    any (λ p. in_team team_id p && (p.id == project_id)) projects

abbrev pub owns_scan : Database → Uuid → Uuid → Bool
owns_scan db team_id scan_id =
    any (λ (s : Scan). owns_project db.projects team_id s.project_id && (s.id == scan_id)) db.scans

abbrev pub within : Option Uuid → (Uuid → Bool) → Bool
within none test = false
within (some i) test = test i

abbrev pub cleared_if : (Uuid → Bool) → Option Uuid → Option Uuid
cleared_if test o = if within o test then none else o

-- The delete of the team and what the foreign keys make of it: the rows of a cascade go, and a
-- reference that is set to null is cleared. A project's latest scan goes with the project.
pub cascade : Database → Uuid → Database
cascade db team_id = record db {
  teams = remove_row team_id_of team_id db.teams;
  memberships = select (λ (m : Membership). not (m.team_id == team_id)) db.memberships;
  projects = select (λ (p : Project). not (in_team team_id p)) db.projects;
  scans = select (λ (s : Scan). not (owns_project db.projects team_id s.project_id)) db.scans;
  vulnerability_findings =
      select (λ (f : VulnerabilityFinding). not (owns_scan db team_id f.scan_id))
        db.vulnerability_findings;
  license_findings =
      select (λ (f : LicenseFinding). not (owns_scan db team_id f.scan_id)) db.license_findings;
  component_approvals =
      select
        (λ (r : ComponentApproval).
          not ((r.team_id == team_id) || owns_project db.projects team_id r.project_id))
        db.component_approvals;
  api_keys =
      select
        (λ (k : ApiKey).
          not (holds k.team_id team_id || within k.project_id (owns_project db.projects team_id)))
        db.api_keys;
  webhook_deliveries =
      map
        (λ (d : WebhookDelivery). record d {
          project_id = cleared_if (owns_project db.projects team_id) d.project_id;
          enqueued_scan_id = cleared_if (owns_scan db team_id) d.enqueued_scan_id;
        })
        db.webhook_deliveries;
}

pub check_delete : List Scan → Database → Uuid → Result TeamError Team
check_delete seen db team_id = do
  team ← require (find team_id_of team_id db.teams) team_missing
  guard (not (team_has_active_scans db.projects seen team_id)) has_active_scans
  ok team

-- `delete_team`. The lock of the team's row holds off a new project of the team, whose foreign key
-- refers to it; it does not hold off a scan. `seen` is the table of scans when the check reads it, and `db`
-- is the store that the delete meets.
pub delete_team : List Scan → Database → Uuid → Result TeamError Team × Database
delete_team seen db team_id = commit (check_delete seen db team_id) (λ _. cascade db team_id) db
