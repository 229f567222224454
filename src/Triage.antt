-- ===== src/Triage.antt =====
-- apps/backend/services/vulnerability_service.py: the status workflow of a vulnerability finding,
-- its guard, and the update handler with the audit row that core/audit.py adds at the commit.
pub mod Status
mod Workflow
pub mod Update
mod Conflicts
mod Suppression
pub mod History
mod Examples
use trustedoss_portal.Prelude.{
  ℕ, String, Bool, true, false, not, ◌&&◌, ◌||◌, Option, none, some, List, [], ◌∷◌, ◌++◌, map,
  select, ◌==◌, str_eq, holds, if◌then◌else◌, Uuid, Timestamp, any, Result, ok, err, guard, ◌>>=◌,
  ◌>>◌, require, commit, find, set_row,
}
use trustedoss_portal.Model.{
  FindingStatus, new, analyzing, exploitable, not_affected, false_positive, suppressed, fixed,
  Project, Scan, VulnerabilityFinding, Database, AuditLog, AuditAction, DiffValue,
}
use trustedoss_portal.Security.{CurrentUser, has_team_admin, assert_team_access}
use trustedoss_portal.Triage.Status.{
  same_status, status_name, status_of_string, status_transitions, status_requires_team_admin,
  is_allowed,
}

-- An invalid transition carries the statuses that are allowed instead.
pub data TriageError : Type 0 where
  finding_not_found forbidden conflict : TriageError
  invalid_transition : List FindingStatus → TriageError

-- The part of the guard that runs on a known target status.
can_transition :
    CurrentUser → FindingStatus → Uuid → FindingStatus → Result TriageError FindingStatus
unfolding is_allowed
can_transition actor current team_id target = do
  guard (not (same_status target current)) (invalid_transition (status_transitions current))
  guard (is_allowed current target) (invalid_transition (status_transitions current))
  guard (not (status_requires_team_admin target && not (has_team_admin actor team_id))) forbidden
  ok target

-- `_assert_can_transition`; the status that the target string spells is handed on.
unfoldable pub assert_can_transition :
    CurrentUser → FindingStatus → String → Uuid → Result TriageError FindingStatus
unfolding can_transition
assert_can_transition actor current target_status team_id = do
  target ←
      require (status_of_string target_status) (invalid_transition (status_transitions current))
  can_transition actor current team_id target

-- `finding JOIN scan JOIN project`
pub project_of : Database → VulnerabilityFinding → Option Project
project_of db finding = elim (find (λ (s : Scan). s.id) finding.scan_id db.scans) [
  | none ↦ none
  | some scan ↦ find (λ (p : Project). p.id) scan.project_id db.projects
]

pub joined : VulnerabilityFinding → Option Project → Option (VulnerabilityFinding × Project)
joined finding none = none
joined finding (some project) = some (finding, project)

unfoldable pub load_finding_with_project : Database → Uuid → Option (VulnerabilityFinding × Project)
unfolding project_of joined
load_finding_with_project db finding_id =
    elim (find (λ (f : VulnerabilityFinding). f.id) finding_id db.vulnerability_findings) [
      | none ↦ none
      | some finding ↦ joined finding (project_of db finding)
    ]

-- `if_match is None or finding.updated_at == if_match`
abbrev pub if_match_ok : Option Timestamp → Timestamp → Bool
if_match_ok none updated_at = true
if_match_ok (some t) updated_at = updated_at == t

abbrev pub or_keep : Option String → Option String → Option String
or_keep none old = old
or_keep (some s) old = some s

-- The row that the handler writes.
unfoldable pub transitioned :
    VulnerabilityFinding → FindingStatus → Option String → Uuid → Timestamp → VulnerabilityFinding
transitioned finding target justification actor_id now = record finding {
  status = target;
  analysis_state = some target;
  analysis_justification = or_keep justification finding.analysis_justification;
  analyst_user_id = some actor_id;
  analyzed_at = some now;
  updated_at = now;
}

-- The parameters of one PATCH request and the clock reading of the handler. `started_at` is the
-- database's `now()`, the start of the transaction, which stamps the audit row.
pub record StatusUpdate : Type 0 where
  pub finding_id : Uuid
  pub actor : CurrentUser
  pub target_status : String
  pub justification : Option String
  pub if_match : Option Timestamp
  pub now : Timestamp
  pub started_at : Timestamp
  pub audit_id : Uuid

-- The checks on the loaded rows, in the order of the code, and the row to write.
unfoldable pub check_loaded :
    StatusUpdate → VulnerabilityFinding → Project → Result TriageError VulnerabilityFinding
check_loaded req finding project = do
  assert_team_access req.actor project.team_id finding_not_found
  guard (if_match_ok req.if_match finding.updated_at) conflict
  target ← assert_can_transition req.actor finding.status req.target_status project.team_id
  ok (transitioned finding target req.justification req.actor.id req.now)

-- `update_vulnerability_status` up to the commit: the old and the new row, or the exception.
unfoldable pub check_update :
    Database → StatusUpdate → Result TriageError (VulnerabilityFinding × VulnerabilityFinding)
check_update db req = do
  (finding, project) ← require (load_finding_with_project db req.finding_id) finding_not_found
  after ← check_loaded req finding project
  ok (finding, after)

-- `_changed_columns`: a column is in the diff if its value has changed.
abbrev pub changed :
    Bool → String → DiffValue → List (String × DiffValue) → List (String × DiffValue)
changed true column value rest = rest
changed false column value rest = (column, value) ∷ rest

same_text : Option String → Option String → Bool
same_text none none = true
same_text (some a) (some b) = str_eq a b
same_text _ _ = false

text_value : Option String → DiffValue
text_value none = DiffValue.null
text_value (some s) = DiffValue.text s

same_state : Option FindingStatus → FindingStatus → Bool
same_state none t = false
same_state (some s) t = same_status s t

-- The diff of the UPDATE: `after` is a row that `transitioned` made from `before`.
finding_diff :
    VulnerabilityFinding → VulnerabilityFinding → Uuid → Timestamp → List (String × DiffValue)
unfolding same_text text_value same_state status_name
finding_diff before after actor_id now =
    changed (same_status before.status after.status) "status"
      (DiffValue.text (status_name after.status))
      (changed (same_state before.analysis_state after.status) "analysis_state"
        (DiffValue.text (status_name after.status))
        (changed (same_text before.analysis_justification after.analysis_justification)
          "analysis_justification" (text_value after.analysis_justification)
          (changed (holds before.analyst_user_id actor_id) "analyst_user_id"
            (DiffValue.uuid_text actor_id)
            (changed (holds before.analyzed_at now) "analyzed_at" (DiffValue.iso_text now)
              (changed (before.updated_at == now) "updated_at" (DiffValue.iso_text now) [])))))

-- The row that the `before_flush` listener adds for the changed finding.
pub audit_of : VulnerabilityFinding → VulnerabilityFinding → StatusUpdate → AuditLog
unfolding finding_diff
audit_of before after req = record {
  id = req.audit_id;
  actor_user_id = some req.actor.id;
  action = AuditAction.update;
  target_table = "vulnerability_findings";
  target_id = some before.id;
  diff = finding_diff before after req.actor.id req.now;
  created_at = req.started_at;
}

unfoldable pub save_update :
    Database → StatusUpdate → VulnerabilityFinding × VulnerabilityFinding → Database
save_update db req (before, after) = record db {
  vulnerability_findings =
      set_row (λ (f : VulnerabilityFinding). f.id) req.finding_id after db.vulnerability_findings;
  audit_logs = db.audit_logs ++ audit_of before after req ∷ [];
}

-- `update_vulnerability_status`: the result of the commit, and the store after it.
unfoldable pub update_vulnerability_status :
    Database
    → StatusUpdate
    → Result TriageError (VulnerabilityFinding × VulnerabilityFinding) × Database
unfolding save_update
update_vulnerability_status db req = commit (check_update db req) (save_update db req) db

-- The requests of a run, one after the other: an exception ends only its own request.
pub run_updates : Database → List StatusUpdate → Database
run_updates db [] = db
run_updates db (req ∷ reqs) = run_updates (update_vulnerability_status db req).1 reqs
