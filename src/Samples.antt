-- ===== src/Samples.antt =====
-- A small store and a few principals for the examples: two teams, one project with a scan, a
-- critical finding and a forbidden license, and one approval.
use trustedoss_portal.Prelude.{
  String, Bool, true, false, Option, none, some, [], ◌∷◌, Uuid, Timestamp, codes,
}
use trustedoss_portal.Model.{
  Team, Role, User, Membership, RefreshToken, ScanKind, ScanStatus, Provider, ProjectVisibility,
  Severity, FindingStatus, LicenseCategory, LicenseFindingKind, Project, Scan, VulnerabilityFinding,
  ApprovalStatus, ComponentApproval, Database, empty,
}
use trustedoss_portal.Security.{CurrentUser}

abbrev pub member : Uuid → Role → Uuid → CurrentUser
member id role team_id = record {
  id = id;
  email = "user@example.com";
  role = role;
  team_ids = team_id ∷ [];
  team_roles = (team_id, role) ∷ [];
  is_active = true;
  is_superuser = false;
}

-- An admin and a developer of team 1, and a developer of team 2.
abbrev pub alice : CurrentUser
alice = member 11 Role.team_admin 1

abbrev pub bob : CurrentUser
bob = member 12 Role.developer 1

abbrev pub carol : CurrentUser
carol = member 13 Role.developer 2

abbrev pub user_row : Uuid → Bool → Bool → User
user_row id active superuser = record {
  id = id;
  email = "user@example.com";
  full_name = none;
  hashed_password = "old hash";
  is_active = active;
  is_superuser = superuser;
  last_login_at = none;
  created_at = 1;
  updated_at = 1;
}

abbrev pub team_row : Uuid → String → Team
team_row id slug = record {
  id = id;
  organization_id = 1;
  name = slug;
  slug = slug;
  description = none;
  created_at = 1;
  updated_at = 1;
}

abbrev pub membership_row : Uuid → Uuid → Uuid → Role → Membership
membership_row id user_id team_id role = record {
  id = id;
  user_id = user_id;
  team_id = team_id;
  role = role;
  updated_at = 1;
}

abbrev pub token_row : Uuid → Uuid → Uuid → Option Uuid → Option Timestamp → RefreshToken
token_row id user_id jti parent revoked_at = record {
  id = id;
  user_id = user_id;
  jti = jti;
  parent_jti = parent;
  expires_at = 1000;
  revoked_at = revoked_at;
  revoked_reason = none;
}

abbrev pub project_a : Project
project_a = record {
  id = 21;
  team_id = 1;
  name = "portal";
  slug = "portal";
  description = none;
  default_branch = some "main";
  visibility = ProjectVisibility.team;
  archived_at = none;
  created_by_user_id = some 11;
  latest_scan_id = some 31;
  git_url = some (codes "https://example.com/portal.git");
  webhook_secret = some (codes "secret");
  webhook_provider = some Provider.github;
  updated_at = 1;
}

abbrev pub scan_row : Uuid → ScanStatus → Scan
scan_row id status = record {
  id = id;
  project_id = 21;
  kind = ScanKind.source;
  status = status;
  celery_task_id = none;
  requested_by_user_id = some 11;
  progress_percent = 0;
  current_step = none;
  started_at = none;
  completed_at = none;
  error_message = none;
  created_at = id;
}

abbrev pub finding_row : FindingStatus → VulnerabilityFinding
finding_row status = record {
  id = 51;
  scan_id = 31;
  component_version_id = 81;
  vulnerability_id = 41;
  status = status;
  analysis_state = none;
  analysis_justification = none;
  analyst_user_id = none;
  analyzed_at = none;
  created_at = 1;
  updated_at = 5;
}

abbrev pub approval_row : ApprovalStatus → ComponentApproval
approval_row status = record {
  id = 91;
  component_id = 81;
  project_id = 21;
  team_id = 1;
  requested_by_user_id = some 12;
  requested_at = 1;
  status = status;
  decided_by_user_id = none;
  decided_at = none;
  decision_note = none;
  version = 1;
}

-- The store with a finding, an approval and a second scan in the given states.
abbrev pub store : FindingStatus → ApprovalStatus → ScanStatus → Database
store finding approval scan = record empty {
  organizations = record { id = 1; created_at = 1 } ∷ [];
  teams = team_row 1 "core" ∷ team_row 2 "web" ∷ [];
  users = user_row 11 true true ∷ user_row 12 true false ∷ user_row 14 true true ∷ [];
  memberships = membership_row 101 12 1 Role.developer ∷ [];
  refresh_tokens = token_row 111 12 201 none none ∷ [];
  projects = project_a ∷ [];
  scans = scan_row 31 ScanStatus.succeeded ∷ scan_row 32 scan ∷ [];
  vulnerabilities =
      record { id = 41; external_id = "CVE-2026-1"; severity = Severity.critical } ∷ [];
  vulnerability_findings = finding_row finding ∷ [];
  licenses =
      record {
        id = 61;
        spdx_id = some "AGPL-3.0";
        name = "AGPL";
        category = LicenseCategory.forbidden;
      }
      ∷ [];
  license_findings =
      record {
        id = 71;
        scan_id = 31;
        component_version_id = 81;
        license_id = 61;
        kind = LicenseFindingKind.declared;
      }
      ∷ [];
  components = record { id = 81; name = "left-pad" } ∷ [];
  component_approvals = approval_row approval ∷ [];
}
