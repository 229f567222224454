-- ===== src/Scans/Task.antt =====
-- The worker's task as a whole.
use trustedoss_portal.Prelude.{
  String, Bool, true, false, ◌||◌, Option, none, some, List, [], ◌∷◌, if◌then◌else◌, Uuid,
  Timestamp, find-set_row_self, key-find, Bool-cases, Option-cases, find, arith, inl, inr, ◌≡◌,
  refl, ◌∙◌,
}
use trustedoss_portal.Model.{ScanStatus, running, succeeded, failed, Scan, Database}
use trustedoss_portal.Scans.Rows.{scan_id_of, project_id_of, is_terminal, write_scan, put_scan}
use trustedoss_portal.Scans.Worker.{
  unless_raised, continue_task, run_pipeline, pipeline_stages, scan_source_task, Stage, on_scan,
  failed_at, succeeded_at, staged, started, record_terminal_failure, mark_succeeded, set_stage,
  has_succeeded, run_scan, start_in_project, start_scan, start,
}
use trustedoss_portal.Scans.Slots.{write_scan-others}

-- The scan is in the table with this status.
pub record Ends (db : Database) (id : Uuid) (status : ScanStatus) : Type 0 where
  pub scan : Scan
  pub found : find scan_id_of id db.scans ≡ some scan
  pub is : scan.status ≡ status

pub find-put_scan :
    (id : Uuid) (old new : Scan) (db : Database)
    → find scan_id_of id db.scans ≡ some old
    → new.id ≡ old.id
    → find scan_id_of id (put_scan id new db).scans ≡ some new
unfolding put_scan
find-put_scan id old new db found same =
    find-set_row_self scan_id_of id old new db.scans found
      (same ∙ key-find scan_id_of id db.scans old found)

pub on_scan-Ends :
    (change : Scan → Scan) (id : Uuid) (db : Database) (old : Scan) (status : ScanStatus)
    → find scan_id_of id db.scans ≡ some old
    → (change old).id ≡ old.id
    → (change old).status ≡ status
    → Ends (on_scan change id (find scan_id_of id db.scans) db) id status
on_scan-Ends change id db old status found same is =
    rw found (record {
      scan = change old;
      found = find-put_scan id old (change old) db found same;
      is = is;
    })

abbrev pub is_raised : Option String → Bool
is_raised none = false
is_raised (some message) = true

-- Some stage raises.
abbrev pub any_raises : (Stage → Option String) → List Stage → Bool
any_raises raised [] = false
any_raises raised (st ∷ stages) = is_raised (raised st) || any_raises raised stages

unless_raised-Ends :
    (handler : String → Database) (rest : Database) (o : Option String) (id : Uuid) (b : Bool)
    → Ends rest id (if b then failed else succeeded)
    → ((message : String) → Ends (handler message) id failed)
    → Ends (unless_raised handler rest o) id (if is_raised o || b then failed else succeeded)
unless_raised-Ends handler rest none id b ends fails = ends
unless_raised-Ends handler rest (some message) id b ends fails = fails message

-- The pipeline leaves a scan failed if some stage raises, and succeeded otherwise.
pub run_pipeline-Ends :
    (raised : Stage → Option String) (id : Uuid) (now : Timestamp) (stages : List Stage)
    (db : Database) (scan : Scan)
    → find scan_id_of id db.scans ≡ some scan
    → Ends
        (run_pipeline raised id now stages db)
        id
        (if any_raises raised stages then failed else succeeded)
unfolding run_pipeline mark_succeeded
run_pipeline-Ends raised id now [] db scan found =
    on_scan-Ends (succeeded_at now) id db scan succeeded found refl refl
run_pipeline-Ends raised id now (st ∷ stages) db scan found =
    let after : find scan_id_of id (set_stage db id st).scans ≡ some (staged st scan) =
      unfold set_stage in rw found (find-put_scan id scan (staged st scan) db found refl) in
    unless_raised-Ends (λ message. record_terminal_failure (set_stage db id st) id message now)
      (run_pipeline raised id now stages (set_stage db id st)) (raised st) id
      (any_raises raised stages)
      (run_pipeline-Ends raised id now stages (set_stage db id st) (staged st scan) after)
      λ message.
        (unfold record_terminal_failure in
          on_scan-Ends (failed_at message now) id (set_stage db id st) (staged st scan) failed after
            refl refl)

-- What the first session leaves to the pipeline, or for good.
abbrev pub After : Uuid → Bool × Database → Type 0
After id (true, db) = Ends db id running
After id (false, db) = (status : ScanStatus) × Ends db id status × (is_terminal status ≡ true)

run_scan-After :
    (db : Database) (id : Uuid) (scan : Scan) (exc : String) (now : Timestamp)
    → find scan_id_of id db.scans ≡ some scan
    → After id (run_scan db id scan exc now (write_scan id (started now scan) db.scans))
unfolding run_scan record_terminal_failure
run_scan-After db id scan exc now found =
    elim (Option-cases (write_scan id (started now scan) db.scans)) [
      | inl refused ↦
          rw refused
            (failed, on_scan-Ends (failed_at exc now) id db scan failed found refl refl, refl)
      | inr (saved, written) ↦ rw written (record {
        scan = started now scan;
        found = rw (write_scan-others id (started now scan) db.scans saved written).0 (
            find-set_row_self scan_id_of id scan (started now scan) db.scans found
              (key-find scan_id_of id db.scans scan found));
        is = refl;
      })
    ]

terminal_of : (s : ScanStatus) → has_succeeded s ≡ true → is_terminal s ≡ true
terminal_of s h = ground arith

start-After :
    (db : Database) (id : Uuid) (exc : String) (now : Timestamp) (scan : Scan)
    → find scan_id_of id db.scans ≡ some scan
    → After id (start db id exc now)
unfolding start start_scan start_in_project
start-After db id exc now scan found = rw found (elim (Bool-cases (has_succeeded scan.status)) [
  | inl done ↦
      rw done (
        scan.status,
        record { scan = scan; found = found; is = refl },
        terminal_of scan.status done,
      )
  | inr going ↦ rw going (elim (Option-cases (find project_id_of scan.project_id db.projects)) [
    | inl orphan ↦ rw orphan (
      failed,
      record {
        scan = failed_at "project no longer exists" now scan;
        found = find-put_scan id scan (failed_at "project no longer exists" now scan) db found refl;
        is = refl;
      },
      refl,
    )
    | inr (project, loaded) ↦ rw loaded (run_scan-After db id scan exc now found)
  ])
])

verdict-is_terminal : (b : Bool) → is_terminal (if b then failed else succeeded) ≡ true
verdict-is_terminal true = refl
verdict-is_terminal false = refl

continue_task-terminal :
    (raised : Stage → Option String) (id : Uuid) (now : Timestamp) (p : Bool × Database)
    → After id p
    → (status : ScanStatus) × Ends (continue_task raised id now p) id status
      × (is_terminal status ≡ true)
continue_task-terminal raised id now (false, db) after = after
continue_task-terminal raised id now (true, db) after = (
  if any_raises raised pipeline_stages then failed else succeeded,
  run_pipeline-Ends raised id now pipeline_stages db after.scan after.found,
  verdict-is_terminal (any_raises raised pipeline_stages),
)

-- Left alone, the worker always ends a scan: whatever the stages raise, and whether or not the
-- index takes the row or the project is still there, a scan that is in the table has a
-- terminal status once the task is over.
pub scan_source_task-Ends :
    (raised : Stage → Option String) (db : Database) (id : Uuid) (exc : String) (now : Timestamp)
    (scan : Scan)
    → find scan_id_of id db.scans ≡ some scan
    → (status : ScanStatus) × Ends (scan_source_task raised db id exc now) id status
      × (is_terminal status ≡ true)
unfolding scan_source_task
scan_source_task-Ends raised db id exc now scan found =
    continue_task-terminal raised id now (start db id exc now)
      (start-After db id exc now scan found)
