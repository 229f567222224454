-- ===== src/Scans/Slots.antt =====
-- What one write of a scan row does to the slot of its project.
use trustedoss_portal.Prelude.{
  ◌≤◌, String, true, false, ◌&&◌, some, List, Uuid, Timestamp, Result, ok, err, any, any-eq-false,
  count_if, bit, Bool-cases, Option-cases, find, set_row, remove_row, count_if-set_row,
  count_if-remove_row, arith, inl, inr, ◌≡◌, ap,
}
use mathlib.Core.Path.{subst}
use trustedoss_portal.Model.{Scan, Database}
use trustedoss_portal.Scans.Rows.{
  scan_id_of, project_id_of, is_active, active_in, write_scan, put_scan,
}
use trustedoss_portal.Scans.Worker.{
  Stage, on_scan, failed_at, succeeded_at, staged, started, record_terminal_failure, has_succeeded,
  run_scan, start_in_project, start_scan, start,
}
use trustedoss_portal.Scans.{dispatched_scan, cancelled_at}

-- `ix_scans_project_active`
pub record IsSingleActive (db : Database) : Type 0 where
  pub at : (p : Uuid) → count_if (active_in p) db.scans ≤ 1

-- The new row is in the index only where the old one was.
abbrev pub OpensNothing : (Scan → Scan) → Type 0
OpensNothing change = (s : Scan) (p : Uuid) → bit (active_in p (change s)) ≤ bit (active_in p s)

pub put_scan-keeps :
    (id : Uuid) (old new : Scan) (db : Database)
    → find scan_id_of id db.scans ≡ some old
    → ((p : Uuid) → bit (active_in p new) ≤ bit (active_in p old))
    → IsSingleActive db
    → IsSingleActive (put_scan id new db)
unfolding put_scan
put_scan-keeps id old new db found less single = record {
  at = λ p. omega (
    arith,
    single.at p,
    less p,
    count_if-set_row scan_id_of (active_in p) id old new db.scans found,
  );
}

pub on_scan-keeps :
    (change : Scan → Scan) (id : Uuid) (db : Database)
    → OpensNothing change
    → IsSingleActive db
    → IsSingleActive (on_scan change id (find scan_id_of id db.scans) db)
on_scan-keeps change id db less single = elim (Option-cases (find scan_id_of id db.scans)) [
  | inl missing ↦ rw missing single
  | inr (old, found) ↦ rw found (put_scan-keeps id old (change old) db found (less old) single)
]

pub failed_at-closed : (message : String) (now : Timestamp) → OpensNothing (failed_at message now)
failed_at-closed message now s p = ground arith

pub succeeded_at-closed : (now : Timestamp) → OpensNothing (succeeded_at now)
succeeded_at-closed now s p = ground arith

pub staged-closed : (st : Stage) → OpensNothing (staged st)
staged-closed st s p = omega arith

pub cancelled_at-closed : (now : Timestamp) → OpensNothing (cancelled_at now)
cancelled_at-closed now s p = ground arith

pub dispatched_scan-closed : (answer : Result String String) → OpensNothing (dispatched_scan answer)
dispatched_scan-closed (ok task_id) s p = omega arith
dispatched_scan-closed (err exc) s p = ground arith

pub write_scan-others :
    (id : Uuid) (row : Scan) (scans saved : List Scan)
    → write_scan id row scans ≡ some saved
    → (saved ≡ set_row scan_id_of id row scans)
      × ((is_active row.status && any (active_in row.project_id) (remove_row scan_id_of id scans))
          ≡ false)
unfolding write_scan
write_scan-others id row scans saved h = ground arith

none_elsewhere :
    (id : Uuid) (row : Scan) (scans : List Scan) (p : Uuid)
    → (is_active row.status && any (active_in row.project_id) (remove_row scan_id_of id scans))
      ≡ false
    → active_in p row ≡ true
    → count_if (active_in p) (remove_row scan_id_of id scans) ≡ 0
none_elsewhere id row scans p h active =
    let here : row.project_id ≡ p = ground arith in
    let on : is_active row.status ≡ true = ground arith in
    any-eq-false (active_in p) (remove_row scan_id_of id scans)
      (subst (λ q. any (active_in q) (remove_row scan_id_of id scans) ≡ false) here (rw on at h))

write_scan-keeps :
    (id : Uuid) (old row : Scan) (scans saved : List Scan) (p : Uuid)
    → find scan_id_of id scans ≡ some old
    → write_scan id row scans ≡ some saved
    → count_if (active_in p) scans ≤ 1
    → count_if (active_in p) saved ≤ 1
write_scan-keeps id old row scans saved p found h below =
    let (written, apart) = write_scan-others id row scans saved h in
    let moved = count_if-set_row scan_id_of (active_in p) id old row scans found in
    let left = count_if-remove_row scan_id_of (active_in p) id old scans found in
    rw written (elim (Bool-cases (active_in p row)) [
      | inl active ↦
          omega (arith, moved, left, none_elsewhere id row scans p apart active, ap bit active)
      | inr idle ↦ omega (arith, moved, below, ap bit idle)
    ])

run_scan-keeps :
    (db : Database) (id : Uuid) (scan : Scan) (exc : String) (now : Timestamp)
    → find scan_id_of id db.scans ≡ some scan
    → IsSingleActive db
    → IsSingleActive (run_scan db id scan exc now (write_scan id (started now scan) db.scans)).1
unfolding run_scan record_terminal_failure
run_scan-keeps db id scan exc now found single =
    elim (Option-cases (write_scan id (started now scan) db.scans)) [
      | inl refused ↦
          rw refused (on_scan-keeps (failed_at exc now) id db (failed_at-closed exc now) single)
      | inr (saved, written) ↦ rw written (record {
        at = λ p.
            write_scan-keeps id scan (started now scan) db.scans saved p found written
              (single.at p);
      })
    ]

pub start-keeps :
    (db : Database) (id : Uuid) (exc : String) (now : Timestamp)
    → IsSingleActive db
    → IsSingleActive (start db id exc now).1
unfolding start start_scan start_in_project
start-keeps db id exc now single = elim (Option-cases (find scan_id_of id db.scans)) [
  | inl missing ↦ rw missing single
  | inr (scan, found) ↦ rw found (elim (Bool-cases (has_succeeded scan.status)) [
    | inl done ↦ rw done single
    | inr going ↦ rw going (elim (Option-cases (find project_id_of scan.project_id db.projects)) [
      | inl orphan ↦ rw orphan (
          put_scan-keeps id scan (failed_at "project no longer exists" now scan) db found
            (failed_at-closed "project no longer exists" now scan) single)
      | inr (project, loaded) ↦ rw loaded (run_scan-keeps db id scan exc now found single)
    ])
  ])
]
