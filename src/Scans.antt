-- ===== src/Scans.antt =====
-- apps/backend/services/scan_service.py and cancel_scan of services/admin_scan_service.py: the
-- life of a scan between a user, an admin and the worker. The free space of the disk and the task queue
-- are parameters: `disk_full` is the verdict of the disk guard, `enqueue` what the queue answers.
pub mod Rows
pub mod Worker
pub mod Slots
mod Active
mod Lifecycle
mod Task
mod Reads
mod Examples
use Prim.Native.String.{◌++◌}
use trustedoss_portal.Prelude.{
  ℕ, String, Bool, true, false, not, ◌&&◌, ◌||◌, Option, none, some, List, [], ◌∷◌, select, leb,
  ltb, ◌==◌, if◌then◌else◌, Uuid, Timestamp, any, count_if, contains, Result, ok, err, guard, ◌>>=◌,
  ◌>>◌, require, commit, find, set_row, order_by, page_of, clamp_size,
}
use trustedoss_portal.Model.{
  ScanKind, ScanStatus, queued, cancelled, failed, succeeded, running, Project, Scan, Database,
}
use trustedoss_portal.Security.{CurrentUser, is_super, can_access_team}
use trustedoss_portal.Scans.Rows.{
  scan_id_of, project_id_of, is_terminal, active_in, put_scan, marked_failed,
}
use trustedoss_portal.Scans.Worker.{
  Stage, start, set_stage, mark_succeeded, record_terminal_failure, on_scan,
}

pub data ScanError : Type 0 where
  project_missing scan_not_found forbidden in_progress_conflict disk_full : ScanError
  enqueue_failed : String → ScanError

pub record NewScan : Type 0 where
  pub actor : CurrentUser
  pub project_id : Uuid
  pub kind : ScanKind
  pub fresh_id : Uuid
  pub now : Timestamp
  pub disk_full : Bool

abbrev pub queued_scan : NewScan → Scan
queued_scan req = record {
  id = req.fresh_id;
  project_id = req.project_id;
  kind = req.kind;
  status = queued;
  celery_task_id = none;
  requested_by_user_id = some req.actor.id;
  progress_percent = 0;
  current_step = none;
  started_at = none;
  completed_at = none;
  error_message = none;
  created_at = req.now;
}

-- The checks of `trigger_scan`, on the project as it was loaded.
pub check_trigger : Database → NewScan → Result ScanError Project
check_trigger seen req = do
  project ← require (find project_id_of req.project_id seen.projects) project_missing
  guard (can_access_team req.actor project.team_id) forbidden
  guard (not req.disk_full) disk_full
  ok project

-- The insert under the primary key, the foreign key and the index, and the pointer to the latest
-- scan. Every exception of the commit is answered as a scan in progress.
pub insert_scan : Database → NewScan → Result ScanError Database
insert_scan db req = do
  project ← require (find project_id_of req.project_id db.projects) in_progress_conflict
  guard (not (any (λ (s : Scan). s.id == req.fresh_id) db.scans)) in_progress_conflict
  guard (not (any (active_in req.project_id) db.scans)) in_progress_conflict
  ok record db {
    scans = queued_scan req ∷ db.scans;
    projects =
        set_row project_id_of req.project_id (record project { latest_scan_id = some req.fresh_id })
          db.projects;
  }

-- The first transaction of `trigger_scan`.
pub submit_scan : Database → Database → NewScan → Result ScanError Database × Database
submit_scan seen db req =
    commit (do project ← check_trigger seen req; insert_scan db req) (λ saved. saved) db

abbrev pub dispatched_scan : Result String String → Scan → Scan
dispatched_scan (ok task_id) scan = record scan { celery_task_id = some task_id }
dispatched_scan (err exc) scan = marked_failed scan ("enqueue_failed: " ++ exc)

-- The second transaction: the queue has taken the scan, or raised.
unfoldable pub record_dispatch : Database → Uuid → Result String String → Database
record_dispatch db id answer = on_scan (dispatched_scan answer) id (find scan_id_of id db.scans) db

abbrev pub answered : Uuid → Result String String → Result ScanError Uuid
answered id (ok task_id) = ok id
answered id (err exc) = err (enqueue_failed exc)

unfoldable pub dispatch :
    (Scan → Result String String)
    → NewScan
    → Result ScanError Database × Database
    → Result ScanError Uuid × Database
dispatch enqueue req (err e, db) = (err e, db)
dispatch enqueue req (ok _, db) =
    let answer = enqueue (queued_scan req) in
    (answered req.fresh_id answer, record_dispatch db req.fresh_id answer)

-- `trigger_scan` with nothing in between its two transactions.
pub trigger_scan :
    (Scan → Result String String) → Database → NewScan → Result ScanError Uuid × Database
trigger_scan enqueue db req = dispatch enqueue req (submit_scan db db req)

pub get_scan : Database → CurrentUser → Uuid → Result ScanError Scan
get_scan db actor id = do
  scan ← require (find scan_id_of id db.scans) scan_not_found
  project ← require (find project_id_of scan.project_id db.projects) project_missing
  guard (can_access_team actor project.team_id) forbidden
  ok scan

-- `ORDER BY created_at DESC, id DESC`
abbrev pub recent_first : Scan → Scan → Bool
recent_first a b =
    ltb b.created_at a.created_at || ((a.created_at == b.created_at) && leb b.id a.id)

abbrev pub scan_page : (Scan → Bool) → ℕ → ℕ → List Scan → List Scan × ℕ
scan_page wanted page size scans = (
  page_of page (clamp_size size 100) (order_by recent_first (select wanted scans)),
  count_if wanted scans,
)

pub list_scans_for_project :
    Database → CurrentUser → Uuid → ℕ → ℕ → Result ScanError (List Scan × ℕ)
list_scans_for_project db actor project_id page size = do
  project ← require (find project_id_of project_id db.projects) project_missing
  guard (can_access_team actor project.team_id) forbidden
  ok (scan_page (λ s. s.project_id == project_id) page size db.scans)

abbrev pub same_status : ScanStatus → ScanStatus → Bool
same_status queued queued = true
same_status running running = true
same_status succeeded succeeded = true
same_status failed failed = true
same_status cancelled cancelled = true
same_status _ _ = false

abbrev pub visible_project : CurrentUser → Option Project → Bool
visible_project actor none = false
visible_project actor (some project) = is_super actor || contains project.team_id actor.team_ids

abbrev pub status_given : Option ScanStatus → ScanStatus → Bool
status_given none s = true
status_given (some wanted) s = same_status s wanted

-- The inner join with the project, the tenant clause and the filter.
abbrev pub visible_scan : Database → CurrentUser → Option ScanStatus → Scan → Bool
visible_scan db actor status_filter s =
    visible_project actor (find project_id_of s.project_id db.projects)
    && status_given status_filter s.status

pub list_scans_for_actor : Database → CurrentUser → Option ScanStatus → ℕ → ℕ → List Scan × ℕ
list_scans_for_actor db actor status_filter page size =
    scan_page (visible_scan db actor status_filter) page size db.scans

pub data CancelError : Type 0 where
  admin_scan_not_found scan_already_cancelled : CancelError

abbrev pub cancelled_at : Timestamp → Scan → Scan
cancelled_at now scan = record scan {
  status = cancelled;
  completed_at = some now;
  error_message = some "cancelled by admin";
}

pub check_cancel : Database → Uuid → Timestamp → Result CancelError Scan
check_cancel db id now = do
  scan ← require (find scan_id_of id db.scans) admin_scan_not_found
  guard (not (is_terminal scan.status)) scan_already_cancelled
  ok (cancelled_at now scan)

-- The row that is written; its celery_task_id, if any, is the task that is revoked, whose answer
-- is ignored.
pub cancel_scan : Database → Uuid → Timestamp → Result CancelError Scan × Database
cancel_scan db id now = commit (check_cancel db id now) (λ row. put_scan id row db) db

-- The transactions that touch scans, in the order in which they commit.
pub data Request : Type 0 where
  submit : Database → NewScan → Request
  dispatched : Uuid → Result String String → Request
  cancel : Uuid → Timestamp → Request
  begin : Uuid → String → Timestamp → Request
  stage : Uuid → Stage → Request
  succeed : Uuid → Timestamp → Request
  fail : Uuid → String → Timestamp → Request

pub step : Database → Request → Database
step db (submit seen req) = (submit_scan seen db req).1
step db (dispatched id answer) = record_dispatch db id answer
step db (cancel id now) = (cancel_scan db id now).1
step db (begin id exc now) = (start db id exc now).1
step db (stage id s) = set_stage db id s
step db (succeed id now) = mark_succeeded db id now
step db (fail id message now) = record_terminal_failure db id message now

pub run : Database → List Request → Database
run db [] = db
run db (q ∷ qs) = run (step db q) qs
