-- ===== src/Scans/Examples.antt =====
-- The theorems on scans at concrete requests.
use trustedoss_portal.Prelude.{
  String, true, false, Option, none, some, List, [], ◌∷◌, ok, err, Result, arith, set_row, ◌≡◌,
  refl,
}
use trustedoss_portal.Model.{ScanKind, new, pending, ScanStatus, running, failed, Scan, Database}
use trustedoss_portal.Security.{can_access_team, is_super}
use trustedoss_portal.Samples.{bob, store, scan_row, project_a}
use trustedoss_portal.Scans.Rows.{project_id_of, is_terminal}
use trustedoss_portal.Scans.Worker.{Stage, cdxgen, scan_source_task}
use trustedoss_portal.Scans.{
  NewScan, queued_scan, check_trigger, insert_scan, submit_scan, check_cancel, cancel_scan,
  cancelled_at, Request, submit, dispatched, cancel, begin, stage, succeed, run,
}
use trustedoss_portal.Scans.Slots.{IsSingleActive}
use trustedoss_portal.Scans.Active.{run-IsSingleActive}
use trustedoss_portal.Scans.Task.{Ends, scan_source_task-Ends}

-- The second scan of the store is running.
abbrev busy : Database
busy = store new pending running

abbrev idle : Database
idle = store new pending failed

abbrev request : NewScan
request = record {
  actor = bob;
  project_id = 21;
  kind = ScanKind.source;
  fresh_id = 33;
  now = 40;
  disk_full = false;
}

-- A trigger that loaded its project before the store was busy, then the worker and an admin.
abbrev requests : List Request
requests =
    submit idle request
    ∷ stage 32 cdxgen
    ∷ cancel 32 41
    ∷ submit busy request
    ∷ dispatched 33 (ok "task-1")
    ∷ begin 33 "duplicate key" 42
    ∷ succeed 32 43
    ∷ []

busy-IsSingleActive : IsSingleActive busy
busy-IsSingleActive = record { at = λ p. ground arith }

run-IsSingleActive_example : IsSingleActive (run busy requests)
run-IsSingleActive_example = run-IsSingleActive busy requests busy-IsSingleActive

abbrev stopped : Scan
stopped = cancelled_at 41 (scan_row 32 running)

stopped-ok : (cancel_scan busy 32 41).0 ≡ ok stopped
unfolding cancel_scan check_cancel
stopped-ok = refl

abbrev broker_down : Scan → Result String String
broker_down scan = err "no broker"

abbrev inserted : Database
inserted = record idle {
  scans = queued_scan request ∷ idle.scans;
  projects = set_row project_id_of 21 (record project_a { latest_scan_id = some 33 }) idle.projects;
}

inserted-ok : (submit_scan idle idle request).0 ≡ ok inserted
unfolding submit_scan check_trigger insert_scan can_access_team is_super
inserted-ok = refl

abbrev cdxgen_crashes : Stage → Option String
cdxgen_crashes cdxgen = some "cdxgen: exit 1"
cdxgen_crashes _ = none

scan_source_task-Ends_example :
    (status : ScanStatus) × Ends (scan_source_task cdxgen_crashes busy 32 "" 44) 32 status
    × (is_terminal status ≡ true)
scan_source_task-Ends_example =
    scan_source_task-Ends cdxgen_crashes busy 32 "" 44 (scan_row 32 running) refl
