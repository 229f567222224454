-- ===== src/Scans/Worker.antt =====
-- apps/backend/tasks/scan_source.py: the worker of a source scan, as the commits it makes. Each
-- of its sessions loads one row, writes it and commits, and is taken as one step. What a stage
-- of the pipeline does between two commits is not modelled here: only that it may raise.
use trustedoss_portal.Prelude.{
  ℕ, String, Bool, true, false, not, Option, none, some, List, [], ◌∷◌, select, ◌==◌, if◌then◌else◌,
  Uuid, Timestamp, find,
}
use trustedoss_portal.Model.{
  ScanStatus, running, succeeded, failed, Project, Scan, VulnerabilityFinding, LicenseFinding,
  Database,
}
use trustedoss_portal.Scans.Rows.{scan_id_of, project_id_of, write_scan, put_scan}

-- The stages of `_run_pipeline`.
pub data Stage : Type 0 where
  bootstrap fetch prep cdxgen ort dt_upload dt_findings finalize : Stage

abbrev pub stage_name : Stage → String
stage_name bootstrap = "bootstrap"
stage_name fetch = "fetch"
stage_name prep = "prep"
stage_name cdxgen = "cdxgen"
stage_name ort = "ort"
stage_name dt_upload = "dt_upload"
stage_name dt_findings = "dt_findings"
stage_name finalize = "finalize"

-- `_STAGE_PROGRESS`
abbrev pub stage_progress : Stage → ℕ
stage_progress bootstrap = 0
stage_progress fetch = 10
stage_progress prep = 18
stage_progress cdxgen = 25
stage_progress ort = 50
stage_progress dt_upload = 70
stage_progress dt_findings = 90
stage_progress finalize = 100

abbrev pub pipeline_stages : List Stage
pipeline_stages = bootstrap ∷ fetch ∷ prep ∷ cdxgen ∷ ort ∷ dt_upload ∷ dt_findings ∷ finalize ∷ []

-- `session.get(Scan, id)`; a scan that is gone ends the session without a write.
abbrev pub on_scan : (Scan → Scan) → Uuid → Option Scan → Database → Database
on_scan change id none db = db
on_scan change id (some scan) db = put_scan id (change scan) db

abbrev pub failed_at : String → Timestamp → Scan → Scan
failed_at message now scan = record scan {
  status = failed;
  error_message = some message;
  completed_at = some now;
}

abbrev pub succeeded_at : Timestamp → Scan → Scan
succeeded_at now scan = record scan {
  status = succeeded;
  progress_percent = 100;
  current_step = some "finalize";
  completed_at = some now;
}

abbrev pub staged : Stage → Scan → Scan
staged stage scan = record scan {
  current_step = some (stage_name stage);
  progress_percent = stage_progress stage;
}

abbrev pub started : Timestamp → Scan → Scan
started now scan = record scan {
  status = running;
  started_at = some now;
  error_message = none;
  current_step = some "bootstrap";
  progress_percent = 0;
}

unfoldable pub record_terminal_failure : Database → Uuid → String → Timestamp → Database
record_terminal_failure db id message now =
    on_scan (failed_at message now) id (find scan_id_of id db.scans) db

unfoldable pub mark_succeeded : Database → Uuid → Timestamp → Database
mark_succeeded db id now = on_scan (succeeded_at now) id (find scan_id_of id db.scans) db

unfoldable pub set_stage : Database → Uuid → Stage → Database
set_stage db id stage = on_scan (staged stage) id (find scan_id_of id db.scans) db

-- `_reset_scan_for_rerun`, on the tables of the model.
abbrev pub reset_scan_for_rerun : Uuid → Database → Database
reset_scan_for_rerun id db = record db {
  vulnerability_findings =
      select (λ (f : VulnerabilityFinding). not (f.scan_id == id)) db.vulnerability_findings;
  license_findings = select (λ (f : LicenseFinding). not (f.scan_id == id)) db.license_findings;
}

abbrev pub has_succeeded : ScanStatus → Bool
has_succeeded succeeded = true
has_succeeded _ = false

-- The commit of `_mark_running`; the exception of the index ends the task as a failure.
unfoldable pub run_scan :
    Database → Uuid → Scan → String → Timestamp → Option (List Scan) → Bool × Database
run_scan db id scan exc now none = (false, record_terminal_failure db id exc now)
run_scan db id scan exc now (some scans) =
    (true, record (reset_scan_for_rerun id db) { scans = scans })

unfoldable pub start_in_project :
    Database → Uuid → Scan → String → Timestamp → Option Project → Bool × Database
start_in_project db id scan exc now none =
    (false, put_scan id (failed_at "project no longer exists" now scan) db)
start_in_project db id scan exc now (some project) =
    run_scan db id scan exc now (write_scan id (started now scan) db.scans)

unfoldable pub start_scan : Database → Uuid → String → Timestamp → Option Scan → Bool × Database
start_scan db id exc now none = (false, db)
start_scan db id exc now (some scan) =
    if has_succeeded scan.status
    then (false, db)
    else start_in_project db id scan exc now (find project_id_of scan.project_id db.projects)

-- The first session of `scan_source_task`: whether the pipeline runs, and the store. `exc` is the
-- text of the failure when the index refuses the row.
unfoldable pub start : Database → Uuid → String → Timestamp → Bool × Database
start db id exc now = start_scan db id exc now (find scan_id_of id db.scans)

-- `except` or the next stage.
abbrev pub unless_raised : (String → Database) → Database → Option String → Database
unless_raised handler rest none = rest
unless_raised handler rest (some message) = handler message

-- The stages from one on, then `_mark_succeeded`: `raised` is what a stage raises after its own
-- commit, if anything, with the handler of the task body.
unfoldable pub run_pipeline :
    (Stage → Option String) → Uuid → Timestamp → List Stage → Database → Database
run_pipeline raised id now [] db = mark_succeeded db id now
run_pipeline raised id now (stage ∷ stages) db =
    let after = set_stage db id stage in
    unless_raised (λ message. record_terminal_failure after id message now)
      (run_pipeline raised id now stages after) (raised stage)

abbrev pub continue_task : (Stage → Option String) → Uuid → Timestamp → Bool × Database → Database
continue_task raised id now (false, db) = db
continue_task raised id now (true, db) = run_pipeline raised id now pipeline_stages db

-- `scan_source_task` with nothing in between.
unfoldable pub scan_source_task :
    (Stage → Option String) → Database → Uuid → String → Timestamp → Database
scan_source_task raised db id exc now = continue_task raised id now (start db id exc now)
