-- ===== src/Scans/Lifecycle.antt =====
-- Triggering and cancelling a scan, and what a late worker does to a cancelled one.
use trustedoss_portal.Prelude.{
  String, true, false, not, some, List, ◌∷◌, ==_refl, Uuid, Timestamp, Result, ok, err, guard,
  ◌>>=◌, require, >>=-eq-ok, require-eq-ok, guard-eq-ok, any, any-eq-false, commit-eq-ok, count_if,
  bit, find, count_if-set_row, arith, ◌≡◌, refl, ap,
}
use trustedoss_portal.Model.{ScanStatus, succeeded, failed, cancelled, Scan, Database}
use trustedoss_portal.Scans.Rows.{scan_id_of, is_active, is_terminal, active_in, put_scan}
use trustedoss_portal.Scans.Worker.{
  failed_at, succeeded_at, record_terminal_failure, mark_succeeded,
}
use trustedoss_portal.Scans.{
  trigger_scan, dispatch, enqueue_failed, NewScan, queued_scan, check_trigger, insert_scan,
  submit_scan, dispatched_scan, record_dispatch, check_cancel, cancel_scan, admin_scan_not_found,
  scan_already_cancelled, cancelled_at,
}
use trustedoss_portal.Scans.Slots.{IsSingleActive}
use trustedoss_portal.Scans.Active.{insert_scan-ok}
use trustedoss_portal.Scans.Task.{Ends, on_scan-Ends, find-put_scan}

-- A cancellation that succeeded: the row before it, and the row that it wrote.
record Cancelled (db : Database) (id : Uuid) (now : Timestamp) (row : Scan) : Type 0 where
  scan : Scan
  found : find scan_id_of id db.scans ≡ some scan
  live : is_terminal scan.status ≡ false
  written : row ≡ cancelled_at now scan
  saved : (cancel_scan db id now).1 ≡ put_scan id row db

cancel_scan-Cancelled :
    (db : Database) (id : Uuid) (now : Timestamp) (row : Scan)
    → (cancel_scan db id now).0 ≡ ok row
    → Cancelled db id now row
unfolding cancel_scan check_cancel
cancel_scan-Cancelled db id now row h =
    let (passed, saved) = commit-eq-ok (check_cancel db id now) (λ r. put_scan id r db) db h in
    let (scan, found, h1) =
      >>=-eq-ok (require (find scan_id_of id db.scans) admin_scan_not_found) _ passed in
    let (_, live, h2) =
      >>=-eq-ok (guard (not (is_terminal scan.status)) scan_already_cancelled) _ h1 in
    let going = guard-eq-ok (not (is_terminal scan.status)) scan_already_cancelled live in
    record {
      scan = scan;
      found = require-eq-ok (find scan_id_of id db.scans) admin_scan_not_found found;
      live = ground arith;
      written = cc h2;
      saved = saved;
    }

live_is_active : (s : ScanStatus) → is_terminal s ≡ false → is_active s ≡ true
live_is_active s h = ground arith

cancelled-Ends :
    (db : Database) (id : Uuid) (now : Timestamp) (row : Scan)
    → Cancelled db id now row
    → Ends (cancel_scan db id now).1 id cancelled
cancelled-Ends db id now row c =
    rw (c.saved, c.written)
      (record {
        scan = cancelled_at now c.scan;
        found = find-put_scan id c.scan (cancelled_at now c.scan) db c.found refl;
        is = refl;
      })

slot_freed :
    (db : Database) (id : Uuid) (now : Timestamp) (row : Scan)
    → IsSingleActive db
    → Cancelled db id now row
    → count_if (active_in row.project_id) (cancel_scan db id now).1.scans ≡ 0
unfolding put_scan
slot_freed db id now row single c =
    let p = c.scan.project_id in
    let moved =
      count_if-set_row scan_id_of (active_in p) id c.scan (cancelled_at now c.scan) db.scans
        c.found in
    let was : active_in p c.scan ≡ true = rw (==_refl p) (live_is_active c.scan.status c.live) in
    let is : active_in p (cancelled_at now c.scan) ≡ false = ground arith in
    rw (c.saved, c.written) (omega (arith, moved, single.at p, ap bit was, ap bit is))

-- A cancellation that succeeds leaves the scan cancelled and frees its project's slot: when the
-- project had at most one queued or running scan, it has none afterwards.
pub cancel_scan-frees :
    (db : Database) (id : Uuid) (now : Timestamp) (row : Scan)
    → IsSingleActive db
    → (cancel_scan db id now).0 ≡ ok row
    → Ends (cancel_scan db id now).1 id cancelled
      × (count_if (active_in row.project_id) (cancel_scan db id now).1.scans ≡ 0)
cancel_scan-frees db id now row single h =
    let c = cancel_scan-Cancelled db id now row h in
    (cancelled-Ends db id now row c, slot_freed db id now row single c)

-- The worker never looks at a cancellation: when its last commit comes after an admin has
-- cancelled the scan, the scan ends as succeeded, and when its failure handler comes, as failed.
pub late_worker_overwrites :
    (db : Database) (id : Uuid) (now later : Timestamp) (message : String) (row : Scan)
    → (cancel_scan db id now).0 ≡ ok row
    → Ends (mark_succeeded (cancel_scan db id now).1 id later) id succeeded
      × Ends (record_terminal_failure (cancel_scan db id now).1 id message later) id failed
unfolding mark_succeeded record_terminal_failure
late_worker_overwrites db id now later message row h =
    let e = cancelled-Ends db id now row (cancel_scan-Cancelled db id now row h) in
    (
      on_scan-Ends (succeeded_at later) id (cancel_scan db id now).1 e.scan succeeded e.found refl
          refl,
      on_scan-Ends (failed_at message later) id (cancel_scan db id now).1 e.scan failed e.found refl
          refl,
    )

queued_first :
    (req : NewScan) (scans : List Scan)
    → find scan_id_of req.fresh_id (queued_scan req ∷ scans) ≡ some (queued_scan req)
queued_first req scans = rw (==_refl req.fresh_id) refl

record Submitted (db saved : Database) (req : NewScan) : Type 0 where
  stored : (submit_scan db db req).1 ≡ saved
  free : any (active_in req.project_id) db.scans ≡ false
  scans : saved.scans ≡ queued_scan req ∷ db.scans

submit_scan-Submitted :
    (db saved : Database) (req : NewScan)
    → (submit_scan db db req).0 ≡ ok saved
    → Submitted db saved req
unfolding submit_scan
submit_scan-Submitted db saved req h =
    let (passed, stored) =
      commit-eq-ok (do project ← check_trigger db req; insert_scan db req) (λ d. d) db h in
    let (_, _, inserted) = >>=-eq-ok (check_trigger db req) _ passed in
    let (free, scans) = insert_scan-ok db saved req inserted in
    record { stored = stored; free = free; scans = scans }

undispatched :
    (db saved : Database) (req : NewScan) (exc : String)
    → Submitted db saved req
    → Ends (record_dispatch saved req.fresh_id (err exc)) req.fresh_id failed
      × (count_if (active_in req.project_id) (record_dispatch saved req.fresh_id (err exc)).scans
          ≡ 0)
unfolding record_dispatch put_scan
undispatched db saved req exc sub =
    let found : find scan_id_of req.fresh_id saved.scans ≡ some (queued_scan req) =
      rw sub.scans (queued_first req db.scans) in
    let lost = dispatched_scan (err exc) (queued_scan req) in
    let moved =
      count_if-set_row scan_id_of (active_in req.project_id) req.fresh_id (queued_scan req) lost
        saved.scans found in
    let count : count_if (active_in req.project_id) saved.scans ≡ 1 =
      rw (sub.scans, ==_refl req.project_id)
        (omega (arith, any-eq-false (active_in req.project_id) db.scans sub.free)) in
    let was : active_in req.project_id (queued_scan req) ≡ true =
      rw (==_refl req.project_id) refl in
    let is : active_in req.project_id lost ≡ false = rw (==_refl req.project_id) refl in
    (
      on_scan-Ends (dispatched_scan (err exc)) req.fresh_id saved (queued_scan req) failed found
          refl refl,
      rw found (omega (arith, moved, count, ap bit was, ap bit is)),
    )

trigger-undispatched :
    (enqueue : Scan → Result String String) (db saved : Database) (req : NewScan) (exc : String)
    → (submit_scan db db req).0 ≡ ok saved
    → enqueue (queued_scan req) ≡ err exc
    → trigger_scan enqueue db req
      ≡ (err (enqueue_failed exc), record_dispatch (submit_scan db db req).1 req.fresh_id (err exc))
unfolding trigger_scan dispatch
trigger-undispatched enqueue db saved req exc h refused = rw (h, refused) refl

-- When the queue does not take a scan that was inserted, the caller gets the queue's error, the
-- scan is failed, and its project has no queued or running scan.
pub trigger_scan-enqueue_failed :
    (enqueue : Scan → Result String String) (db saved : Database) (req : NewScan) (exc : String)
    → (submit_scan db db req).0 ≡ ok saved
    → enqueue (queued_scan req) ≡ err exc
    → ((trigger_scan enqueue db req).0 ≡ err (enqueue_failed exc))
      × Ends (trigger_scan enqueue db req).1 req.fresh_id failed
      × (count_if (active_in req.project_id) (trigger_scan enqueue db req).1.scans ≡ 0)
trigger_scan-enqueue_failed enqueue db saved req exc h refused =
    let sub = submit_scan-Submitted db saved req h in
    let (ends, free) = undispatched db saved req exc sub in
    rw (trigger-undispatched enqueue db saved req exc h refused, sub.stored) (refl, ends, free)
