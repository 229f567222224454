-- ===== src/Model/Scans.antt =====
-- apps/backend/models/scan.py: projects, scans, vulnerabilities, licenses and the findings that
-- join them to a scan. Columns that no modelled service reads are left out.
use trustedoss_portal.Prelude.{ℕ, String, Option, Text, Uuid, Timestamp}

pub data ScanKind : Type 0 where
  source container : ScanKind

pub data ScanStatus : Type 0 where
  queued running succeeded failed cancelled : ScanStatus

pub data Severity : Type 0 where
  critical high medium low info unknown : Severity

pub data FindingStatus : Type 0 where
  new analyzing exploitable not_affected false_positive suppressed fixed : FindingStatus

-- `WEBHOOK_PROVIDER_VALUES`
pub data Provider : Type 0 where
  github gitlab : Provider

-- `PROJECT_VISIBILITY_VALUES`
pub data ProjectVisibility : Type 0 where
  team organization : ProjectVisibility

pub data LicenseCategory : Type 0 where
  allowed conditional forbidden unknown : LicenseCategory

pub data LicenseFindingKind : Type 0 where
  declared concluded detected : LicenseFindingKind

pub record Project : Type 0 where
  pub id : Uuid
  pub team_id : Uuid
  pub name : String
  pub slug : String
  pub description : Option String
  pub default_branch : Option String
  pub visibility : ProjectVisibility
  pub archived_at : Option Timestamp
  pub created_by_user_id : Option Uuid
  pub latest_scan_id : Option Uuid
  pub git_url : Option Text
  pub webhook_secret : Option Text
  pub webhook_provider : Option Provider
  pub updated_at : Timestamp

pub record Scan : Type 0 where
  pub id : Uuid
  pub project_id : Uuid
  pub kind : ScanKind
  pub status : ScanStatus
  pub celery_task_id : Option String
  pub requested_by_user_id : Option Uuid
  pub progress_percent : ℕ
  pub current_step : Option String
  pub started_at : Option Timestamp
  pub completed_at : Option Timestamp
  pub error_message : Option String
  pub created_at : Timestamp

pub record Vulnerability : Type 0 where
  pub id : Uuid
  pub external_id : String
  pub severity : Severity

pub record VulnerabilityFinding : Type 0 where
  pub id : Uuid
  pub scan_id : Uuid
  pub component_version_id : Uuid
  pub vulnerability_id : Uuid
  pub status : FindingStatus
  pub analysis_state : Option FindingStatus
  pub analysis_justification : Option String
  pub analyst_user_id : Option Uuid
  pub analyzed_at : Option Timestamp
  pub created_at : Timestamp
  pub updated_at : Timestamp

pub record License : Type 0 where
  pub id : Uuid
  pub spdx_id : Option String
  pub name : String
  pub category : LicenseCategory

pub record LicenseFinding : Type 0 where
  pub id : Uuid
  pub scan_id : Uuid
  pub component_version_id : Uuid
  pub license_id : Uuid
  pub kind : LicenseFindingKind
