-- ===== src/Triage/History.antt =====
-- apps/backend/services/vulnerability_service.py: the status history of a finding, rebuilt from the
-- audit rows. The request id of an audit row is left out.
pub mod Tracked
pub mod Runs
use trustedoss_portal.Prelude.{
  ℕ, String, Bool, true, false, ◌&&◌, ◌||◌, Option, none, some, List, [], ◌∷◌, ◌++◌, select, ltb,
  leb, ◌==◌, str_eq, holds, if◌then◌else◌, Uuid, Timestamp, find, order_by,
}
use trustedoss_portal.Model.{VulnerabilityFinding, Database, AuditLog, AuditAction, DiffValue}

pub record HistoryEntry : Type 0 where
  pub actor_user_id : Option Uuid
  pub action : AuditAction
  pub previous_status : Option String
  pub new_status : String
  pub created_at : Timestamp

-- `diff.get("status")` if it is a string; a status is never a UUID or a moment.
abbrev pub as_text : DiffValue → Option String
as_text (DiffValue.text s) = some s
as_text _ = none

pub status_in : List (String × DiffValue) → Option String
status_in [] = none
status_in ((column, value) ∷ diff) =
    if str_eq column "status" then as_text value else status_in diff

abbrev pub is_update : AuditAction → Bool
is_update AuditAction.update = true
is_update _ = false

-- The `WHERE` clause of the audit query.
pub is_update_of : Uuid → AuditLog → Bool
is_update_of finding_id a =
    str_eq a.target_table "vulnerability_findings"
    && (holds a.target_id finding_id && is_update a.action)

-- `ORDER BY created_at ASC, id ASC`
abbrev pub oldest_first : AuditLog → AuditLog → Bool
oldest_first a b =
    ltb a.created_at b.created_at || ((a.created_at == b.created_at) && leb a.id b.id)

abbrev pub entry_of : Option String → AuditLog → String → HistoryEntry
entry_of last_status a new_status = record {
  actor_user_id = a.actor_user_id;
  action = AuditAction.update;
  previous_status = last_status;
  new_status = new_status;
  created_at = a.created_at;
}

-- One round of the loop: a row without a status is skipped.
abbrev pub walk_on :
    (Option String → List HistoryEntry)
    → Option String
    → AuditLog
    → Option String
    → List HistoryEntry
walk_on rest last_status a none = rest last_status
walk_on rest last_status a (some s) = entry_of last_status a s ∷ rest (some s)

-- The loop over the rows: each entry takes the status of the entry before it.
pub walk : Option String → List AuditLog → List HistoryEntry
unfolding status_in
walk last_status [] = []
walk last_status (a ∷ rows) = walk_on (λ status. walk status rows) last_status a (status_in a.diff)

abbrev pub updates_of : Database → Uuid → List AuditLog
updates_of db finding_id = order_by oldest_first (select (is_update_of finding_id) db.audit_logs)

abbrev pub head_entry : VulnerabilityFinding → HistoryEntry
head_entry f = record {
  actor_user_id = none;
  action = AuditAction.create;
  previous_status = none;
  new_status = "new";
  created_at = f.created_at;
}

abbrev pub history_from : Option VulnerabilityFinding → List AuditLog → List HistoryEntry
history_from none rows = walk none rows
history_from (some f) rows = head_entry f ∷ walk (some "new") rows

-- `_load_status_history`
unfoldable pub load_status_history : Database → Uuid → List HistoryEntry
unfolding walk is_update_of
load_status_history db finding_id =
    history_from (find (λ (f : VulnerabilityFinding). f.id) finding_id db.vulnerability_findings)
      (updates_of db finding_id)
