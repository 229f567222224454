-- ===== src/Webhooks/Enqueued.antt =====
-- What a new delivery does to the scans.
use mathlib.Core.Path.{subst}
use trustedoss_portal.Prelude.{
  ◌≤◌, ◌≡◌, refl, inl, inr, String, true, false, some, List, ◌∷◌, ◌==◌, ==_iff, ==_refl, Uuid, any,
  any-eq-false, count_if, arith, Bool-cases, Option-cases, Result, ok, err, find, set_row,
  any_of_find_by,
}
use trustedoss_portal.Model.{Provider, Project, Scan, Database}
use trustedoss_portal.Scans.Rows.{project_id_of, active_in, put_scan}
use trustedoss_portal.Scans.Slots.{IsSingleActive, OpensNothing, on_scan-keeps}
use trustedoss_portal.Webhooks.Acceptance.{Digests, Hook, Accepted, accept}
use trustedoss_portal.Webhooks.{
  recordable, record_delivery, recorded, new_delivery, hook_scan, with_hook_scan, insert_for,
  dispatch_hook, hook_dispatched, enqueue_source_scan, is_scan_event, with_scan, enqueued,
  process_webhook, Request, run,
}
use trustedoss_portal.Webhooks.Keeps.{Keeps, run-keeps}

hook_dispatched-closed : (answer : Result String String) → OpensNothing (hook_dispatched answer)
hook_dispatched-closed (ok task_id) s p = omega arith
hook_dispatched-closed (err exc) s p = ground arith

hook-count :
    (hook : Hook) (a : Accepted) (scans : List Scan) (p : Uuid)
    → count_if (active_in a.project_id) scans ≡ 0
    → count_if (active_in p) scans ≤ 1
    → count_if (active_in p) (hook_scan hook a ∷ scans) ≤ 1
hook-count hook a scans p free below = elim (Bool-cases (a.project_id == p)) [
  | inr elsewhere ↦ rw elsewhere (omega (arith, below))
  | inl here ↦
      let z : count_if (active_in p) scans ≡ 0 =
        subst (λ q. count_if (active_in q) scans ≡ 0) ((==_iff a.project_id p).0 here) free in
      rw here (omega (arith, z))
]

IsSingleActive-Keeps : (h : Digests) → Keeps h IsSingleActive
IsSingleActive-Keeps h = record {
  recording = λ db hook a single fresh. record { at = λ p. single.at p };
  inserting = λ db hook a project single idle. record {
    at = λ p.
        hook-count hook a db.scans p (any-eq-false (active_in a.project_id) db.scans idle)
          (single.at p);
  };
  dispatching = λ db answer id single.
      on_scan-keeps (hook_dispatched answer) id db (hook_dispatched-closed answer) single;
  linking = λ db delivery scan_id single. record { at = λ p. single.at p };
}

-- No sequence of webhook requests gives a project a second scan that is queued or running: at most one stays at most one, whatever snapshots the requests read and whatever the queue answers.
pub run-IsSingleActive :
    (h : Digests) (db : Database) (qs : List Request)
    → IsSingleActive db
    → IsSingleActive (run h db qs)
run-IsSingleActive h db qs single = run-keeps h IsSingleActive (IsSingleActive-Keeps h) db qs single

recordable-project :
    (db : Database) (hook : Hook) (a : Accepted)
    → recordable db hook a ≡ true
    → (project : Project) × (find project_id_of a.project_id db.projects ≡ some project)
unfolding recordable
recordable-project db hook a fresh =
    elim (Option-cases (find project_id_of a.project_id db.projects)) [
      | inr found ↦ found
      | inl missing ↦ absurd (
          ground
            (arith, any_of_find_by (λ (p : Project). p.id == a.project_id) db.projects missing))
    ]

-- The store after the new scan has been handed to the queue.
dispatched_scans :
    (enqueue : Scan → Result String String) (db : Database) (hook : Hook) (a : Accepted)
    (project : Project)
    → (dispatch_hook enqueue db hook a (some (with_hook_scan db hook a project))).1.scans
      ≡ hook_dispatched (enqueue (hook_scan hook a)) (hook_scan hook a) ∷ db.scans
unfolding put_scan set_row
dispatched_scans enqueue db hook a project =
    rw (==_refl hook.fresh_scan) (rw (==_refl hook.fresh_scan) refl)

insert_for-idle :
    (db : Database) (hook : Hook) (a : Accepted) (project : Project)
    → any (λ (s : Scan). s.id == hook.fresh_scan) db.scans ≡ false
    → any (active_in a.project_id) db.scans ≡ false
    → insert_for db hook a (some project) ≡ some (with_hook_scan db hook a project)
insert_for-idle db hook a project fresh idle = rw (fresh, idle)

pub push_enqueues :
    (h : Digests) (enqueue : Scan → Result String String) (provider : Provider) (seen db : Database)
    (hook : Hook) (a : Accepted)
    → accept h seen provider hook ≡ ok a
    → is_scan_event a.provider a.event ≡ true
    → recordable db hook a ≡ true
    → any (λ (s : Scan). s.id == hook.fresh_scan) db.scans ≡ false
    → any (active_in a.project_id) db.scans ≡ false
    → ((process_webhook h enqueue provider seen db hook).0
        ≡ ok (record {
          status = enqueued;
          delivery = with_scan hook.fresh_scan (new_delivery h hook a);
          scan_id = some hook.fresh_scan;
        }))
      × ((process_webhook h enqueue provider seen db hook).1.scans
          ≡ hook_dispatched (enqueue (hook_scan hook a)) (hook_scan hook a) ∷ db.scans)
unfolding process_webhook record_delivery enqueue_source_scan
push_enqueues h enqueue provider seen db hook a accepted event recording fresh idle =
    let (project, found) = recordable-project db hook a recording in
    let inserted = insert_for-idle (recorded h db hook a) hook a project fresh idle in
    (
      rw accepted (rw recording (rw event (rw found (rw inserted refl)))),
      rw accepted (
          rw recording (
            rw event (
              rw found
                (rw inserted (dispatched_scans enqueue (recorded h db hook a) hook a project))))),
    )
