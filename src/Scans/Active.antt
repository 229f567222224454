-- ===== src/Scans/Active.antt =====
-- At most one scan of a project is queued or running, whatever the interleaving.
use trustedoss_portal.Prelude.{
  ◌≤◌, true, false, not, List, [], ◌∷◌, ◌==◌, ==_iff, Uuid, Timestamp, ok, guard, ◌>>=◌, require,
  >>=-eq-ok, require-eq-ok, guard-eq-ok, commit_inv, any, any-eq-false, count_if, Bool-cases, find,
  arith, inl, inr, ◌≡◌,
}
use mathlib.Core.Path.{subst}
use trustedoss_portal.Model.{Scan, Database}
use trustedoss_portal.Scans.Rows.{scan_id_of, project_id_of, is_terminal, active_in, put_scan}
use trustedoss_portal.Scans.Worker.{
  failed_at, succeeded_at, staged, record_terminal_failure, mark_succeeded, set_stage,
}
use trustedoss_portal.Scans.{
  NewScan, queued_scan, check_trigger, insert_scan, submit_scan, dispatched_scan, record_dispatch,
  check_cancel, cancel_scan, admin_scan_not_found, scan_already_cancelled, cancelled_at, Request,
  submit, dispatched, cancel, begin, stage, succeed, fail, step, run, in_progress_conflict,
}
use trustedoss_portal.Scans.Slots.{
  IsSingleActive, put_scan-keeps, on_scan-keeps, failed_at-closed, succeeded_at-closed,
  staged-closed, cancelled_at-closed, dispatched_scan-closed, start-keeps,
}

pub insert_scan-ok :
    (db saved : Database) (req : NewScan)
    → insert_scan db req ≡ ok saved
    → (any (active_in req.project_id) db.scans ≡ false) × (saved.scans ≡ queued_scan req ∷ db.scans)
unfolding insert_scan
insert_scan-ok db saved req h =
    let (project, _, h1) =
      >>=-eq-ok (require (find project_id_of req.project_id db.projects) in_progress_conflict) _
        h in
    let (_, _, h2) =
      >>=-eq-ok
        (guard (not (any (λ (s : Scan). s.id == req.fresh_id) db.scans)) in_progress_conflict) _
        h1 in
    let (_, free, h3) =
      >>=-eq-ok (guard (not (any (active_in req.project_id) db.scans)) in_progress_conflict) _ h2 in
    let unused : not (any (active_in req.project_id) db.scans) ≡ true =
      guard-eq-ok _ in_progress_conflict free in
    (ground arith, cc h3)

insert-count :
    (req : NewScan) (scans : List Scan) (p : Uuid)
    → count_if (active_in req.project_id) scans ≡ 0
    → count_if (active_in p) scans ≤ 1
    → count_if (active_in p) (queued_scan req ∷ scans) ≤ 1
insert-count req scans p free below = elim (Bool-cases (req.project_id == p)) [
  | inl here ↦
      let z : count_if (active_in p) scans ≡ 0 =
        subst (λ q. count_if (active_in q) scans ≡ 0) ((==_iff req.project_id p).0 here) free in
      rw here (omega (arith, z))
  | inr elsewhere ↦ rw elsewhere (omega (arith, below))
]

submit_scan-keeps :
    (seen db : Database) (req : NewScan)
    → IsSingleActive db
    → IsSingleActive (submit_scan seen db req).1
unfolding submit_scan
submit_scan-keeps seen db req single =
    commit_inv IsSingleActive (do project ← check_trigger seen req; insert_scan db req) _ db single
      λ saved passed. record {
        at = λ p.
            let (_, _, inserted) = >>=-eq-ok (check_trigger seen req) _ passed in
            let (free, scans) = insert_scan-ok db saved req inserted in
            rw scans (insert-count req db.scans p (any-eq-false _ db.scans free) (single.at p));
      }

cancel_scan-keeps :
    (db : Database) (id : Uuid) (now : Timestamp)
    → IsSingleActive db
    → IsSingleActive (cancel_scan db id now).1
unfolding cancel_scan check_cancel
cancel_scan-keeps db id now single =
    commit_inv IsSingleActive (check_cancel db id now) (λ row. put_scan id row db) db single
      λ row passed.
        let (scan, found, h1) =
          >>=-eq-ok (require (find scan_id_of id db.scans) admin_scan_not_found) _ passed in
        let (_, _, h2) =
          >>=-eq-ok (guard (not (is_terminal scan.status)) scan_already_cancelled) _ h1 in
        let same : cancelled_at now scan ≡ row = cc h2 in
        rw (← same) (
          put_scan-keeps id scan (cancelled_at now scan) db
            (require-eq-ok (find scan_id_of id db.scans) admin_scan_not_found found)
            (cancelled_at-closed now scan) single)

step-keeps : (db : Database) (q : Request) → IsSingleActive db → IsSingleActive (step db q)
unfolding step record_dispatch set_stage mark_succeeded record_terminal_failure
step-keeps db (submit seen req) single = submit_scan-keeps seen db req single
step-keeps db (dispatched id answer) single =
    on_scan-keeps (dispatched_scan answer) id db (dispatched_scan-closed answer) single
step-keeps db (cancel id now) single = cancel_scan-keeps db id now single
step-keeps db (begin id exc now) single = start-keeps db id exc now single
step-keeps db (stage id s) single = on_scan-keeps (staged s) id db (staged-closed s) single
step-keeps db (succeed id now) single =
    on_scan-keeps (succeeded_at now) id db (succeeded_at-closed now) single
step-keeps db (fail id message now) single =
    on_scan-keeps (failed_at message now) id db (failed_at-closed message now) single

-- No interleaving of triggers (each checked on whatever snapshot it loaded), queue answers,
-- cancellations and worker commits leaves two queued or running scans in one project, if it
-- starts with none such.
pub run-IsSingleActive :
    (db : Database) (qs : List Request) → IsSingleActive db → IsSingleActive (run db qs)
unfolding run
run-IsSingleActive db [] single = single
run-IsSingleActive db (q ∷ qs) single = run-IsSingleActive (step db q) qs (step-keeps db q single)
