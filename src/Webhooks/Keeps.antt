-- ===== src/Webhooks/Keeps.antt =====
-- What every write of a webhook request keeps holds after any sequence of requests.
use trustedoss_portal.Prelude.{
  ◌≡◌, inl, inr, String, Bool, true, false, Option, none, some, List, [], ◌∷◌, ◌==◌, Uuid, any,
  Bool-cases, Result, ok, err, find,
}
use trustedoss_portal.Model.{Project, Scan, WebhookDelivery, Database}
use trustedoss_portal.Scans.Rows.{scan_id_of, project_id_of, active_in}
use trustedoss_portal.Scans.Worker.{on_scan}
use trustedoss_portal.Webhooks.Acceptance.{Digests, Hook, Accepted, WebhookError, accept}
use trustedoss_portal.Webhooks.{
  recordable, record_delivery, recorded, new_delivery, hook_scan, with_hook_scan, linked,
  enqueue_source_scan, insert_for, dispatch_hook, hook_dispatched, is_scan_event, answer_enqueued,
  process_recorded, process_accepted, process_webhook, Request, step, run,
}

module _ (h : Digests) (P : Database → Type 0) where
  pub record Keeps : Type 0 where
    pub recording :
        (db : Database) (hook : Hook) (a : Accepted)
        → P db
        → recordable db hook a ≡ true
        → P (recorded h db hook a)
    pub inserting :
        (db : Database) (hook : Hook) (a : Accepted) (project : Project)
        → P db
        → any (active_in a.project_id) db.scans ≡ false
        → P (with_hook_scan db hook a project)
    pub dispatching :
        (db : Database) (answer : Result String String) (id : Uuid)
        → P db
        → P (on_scan (hook_dispatched answer) id (find scan_id_of id db.scans) db)
    pub linking :
        (db : Database) (delivery : WebhookDelivery) (scan_id : Uuid)
        → P db
        → P (linked db delivery scan_id)

  module _ (keeps : Keeps) where
    insert_for-keeps :
        (enqueue : Scan → Result String String) (db : Database) (hook : Hook) (a : Accepted)
        (project : Option Project)
        → P db
        → P (dispatch_hook enqueue db hook a (insert_for db hook a project)).1
    insert_for-keeps enqueue db hook a none p = p
    insert_for-keeps enqueue db hook a (some project) p =
        elim (Bool-cases (any (λ (s : Scan). s.id == hook.fresh_scan) db.scans)) [
          | inl used ↦ rw used p
          | inr fresh ↦ elim (Bool-cases (any (active_in a.project_id) db.scans)) [
            | inl active ↦ rw (fresh, active) p
            | inr idle ↦
                rw (fresh, idle)
                  (keeps.dispatching (with_hook_scan db hook a project) (enqueue (hook_scan hook a))
                    hook.fresh_scan (keeps.inserting db hook a project p idle))
          ]
        ]

    answer_enqueued-keeps :
        (delivery : WebhookDelivery) (answer : Result WebhookError Uuid × Database)
        → P answer.1
        → P (answer_enqueued delivery answer).1
    answer_enqueued-keeps delivery (err e, db) p = p
    answer_enqueued-keeps delivery (ok scan_id, db) p = keeps.linking db delivery scan_id p

    pub process_recorded-keeps :
        (enqueue : Scan → Result String String) (hook : Hook) (a : Accepted)
        (delivery : WebhookDelivery) (is_new : Bool) (db : Database)
        → P db
        → P (process_recorded enqueue hook a (delivery, is_new, db)).1
    unfolding enqueue_source_scan
    process_recorded-keeps enqueue hook a delivery false db p = p
    process_recorded-keeps enqueue hook a delivery true db p =
        elim (Bool-cases (is_scan_event a.provider a.event)) [
          | inl scanned ↦ rw scanned (
              answer_enqueued-keeps delivery (enqueue_source_scan enqueue db hook a) (
                insert_for-keeps enqueue db hook a (find project_id_of a.project_id db.projects) p))
          | inr other ↦ rw other p
        ]

    process_accepted-keeps :
        (enqueue : Scan → Result String String) (db : Database) (hook : Hook)
        (accepted : Result WebhookError Accepted)
        → P db
        → P (process_accepted h enqueue db hook accepted).1
    unfolding record_delivery
    process_accepted-keeps enqueue db hook (err e) p = p
    process_accepted-keeps enqueue db hook (ok a) p = elim (Bool-cases (recordable db hook a)) [
      | inl fresh ↦ rw fresh (
          process_recorded-keeps enqueue hook a (new_delivery h hook a) true (recorded h db hook a)
            (keeps.recording db hook a p fresh))
      | inr refused ↦ rw refused p
    ]

    pub run-keeps : (db : Database) (qs : List Request) → P db → P (run h db qs)
    unfolding run step process_webhook
    run-keeps db [] p = p
    run-keeps db (q ∷ qs) p =
        run-keeps (step h db q) qs
          (process_accepted-keeps q.enqueue db q.hook (accept h q.seen q.provider q.hook) p)
