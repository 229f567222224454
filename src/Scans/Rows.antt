-- ===== src/Scans/Rows.antt =====
-- apps/backend/models/scan.py: the states of a scan and the partial unique index
-- `ix_scans_project_active` that a write of a scan row meets.
use trustedoss_portal.Prelude.{
  String, Bool, true, false, ◌&&◌, Option, none, some, List, ◌==◌, if◌then◌else◌, Uuid, any,
  set_row, remove_row,
}
use trustedoss_portal.Model.{
  ScanStatus, queued, running, succeeded, failed, cancelled, Project, Scan, Database,
}

abbrev pub scan_id_of : Scan → Uuid
scan_id_of s = s.id

abbrev pub project_id_of : Project → Uuid
project_id_of p = p.id

-- `status IN ('queued','running')`
abbrev pub is_active : ScanStatus → Bool
is_active queued = true
is_active running = true
is_active _ = false

-- `_TERMINAL_STATUSES`
abbrev pub is_terminal : ScanStatus → Bool
is_terminal succeeded = true
is_terminal failed = true
is_terminal cancelled = true
is_terminal _ = false

abbrev pub active_in : Uuid → Scan → Bool
active_in project_id s = (s.project_id == project_id) && is_active s.status

-- `UPDATE scans`: none when the index refuses the row, since another row is active.
unfoldable pub write_scan : Uuid → Scan → List Scan → Option (List Scan)
write_scan id row scans =
    if is_active row.status && any (active_in row.project_id) (remove_row scan_id_of id scans)
    then none
    else some (set_row scan_id_of id row scans)

-- A write that leaves the indexed columns of the row as they are, or takes it out of the index.
unfoldable pub put_scan : Uuid → Scan → Database → Database
put_scan id row db = record db { scans = set_row scan_id_of id row db.scans }

abbrev pub marked_failed : Scan → String → Scan
marked_failed scan message = record scan { status = failed; error_message = some message }
