-- ===== src/Webhooks.antt =====
-- apps/backend/services/webhook_service.py: deliveries of GitHub and GitLab, verified, recorded
-- once, and turned into source scans. HMAC-SHA256 and SHA-256 are the parameter `Digests`; what the
-- task queue answers is `enqueue`. `seen` is the snapshot that the project is looked up in.
pub mod Payload
pub mod Acceptance
mod Keeps
mod Replay
mod Enqueued
mod Lookup
mod Signature
mod Examples
use Prim.Native.String.{◌++◌ as ◌+++◌}
use mathlib.Core.List.{◌++◌}
use trustedoss_portal.Prelude.{
  ℕ, String, Bool, true, false, not, ◌&&◌, ◌||◌, Option, none, some, List, [], ◌∷◌, ◌==◌, is_some,
  if◌then◌else◌, Uuid, Timestamp, Text, codes, text_eq, starts_with, any, Result, ok, err, guard,
  ◌>>=◌, ◌>>◌, require, find, find_by, set_row, update_where,
}
use trustedoss_portal.Model.{
  ScanKind, queued, Provider, github, gitlab, Project, Scan, WebhookDelivery, Database,
}
use trustedoss_portal.Json.{Fields}
use trustedoss_portal.Scans.Rows.{project_id_of, scan_id_of, active_in, marked_failed}
use trustedoss_portal.Scans.Worker.{on_scan}
use trustedoss_portal.Webhooks.Payload.{
  from_hex, signature_prefix, after_prefix, normalize_repo_url, git_suffix, github_repo_url,
  gitlab_repo_url,
}
use trustedoss_portal.Webhooks.Acceptance.{
  WebhookError, Digests, same_bytes, is_given, verify_github_signature, verify_gitlab_token, Hook,
  same_provider, provided, is_url, matches_url, find_canonical, find_project_by_git_url, Accepted,
  present, verified, repo_url_of, accept, signature_invalid, project_not_found, header_missing,
  missing_greenlet,
}

-- `ix_webhook_deliveries_provider_id`
abbrev pub same_delivery : Provider → Text → WebhookDelivery → Bool
same_delivery provider delivery_id d =
    same_provider d.provider provider && text_eq d.delivery_id delivery_id

abbrev pub new_delivery : Digests → Hook → Accepted → WebhookDelivery
new_delivery h hook a = record {
  id = hook.fresh_delivery;
  provider = a.provider;
  delivery_id = a.delivery_id;
  event_type = a.event;
  payload_hash = h.sha256_hex hook.body;
  received_at = hook.now;
  project_id = some a.project_id;
  enqueued_scan_id = none;
}

abbrev pub recorded : Digests → Database → Hook → Accepted → Database
recorded h db hook a = record db {
  webhook_deliveries = new_delivery h hook a ∷ db.webhook_deliveries;
}

abbrev pub with_scan : Uuid → WebhookDelivery → WebhookDelivery
with_scan scan_id d = record d { enqueued_scan_id = some scan_id }

-- The commit of the insert succeeds.
pub recordable : Database → Hook → Accepted → Bool
recordable db hook a =
    not (any (same_delivery a.provider a.delivery_id) db.webhook_deliveries)
    && (not (any (λ (d : WebhookDelivery). d.id == hook.fresh_delivery) db.webhook_deliveries)
        && any (λ (p : Project). p.id == a.project_id) db.projects)

abbrev pub existing_or : WebhookDelivery → Option WebhookDelivery → WebhookDelivery
existing_or row none = row
existing_or row (some existing) = existing

-- `_record_delivery`: the row, whether it is new, and the store.
pub record_delivery : Digests → Database → Hook → Accepted → WebhookDelivery × Bool × Database
unfolding recordable
record_delivery h db hook a =
    if recordable db hook a then (new_delivery h hook a, true, recorded h db hook a) else (
      existing_or (new_delivery h hook a)
          (find_by (same_delivery a.provider a.delivery_id) db.webhook_deliveries),
      false,
      db,
    )

abbrev pub hook_scan : Hook → Accepted → Scan
hook_scan hook a = record {
  id = hook.fresh_scan;
  project_id = a.project_id;
  kind = ScanKind.source;
  status = queued;
  celery_task_id = none;
  requested_by_user_id = none;
  progress_percent = 0;
  current_step = none;
  started_at = none;
  completed_at = none;
  error_message = none;
  created_at = hook.now;
}

-- The scan, and the pointer of its project to it.
abbrev pub with_hook_scan : Database → Hook → Accepted → Project → Database
with_hook_scan db hook a project = record db {
  scans = hook_scan hook a ∷ db.scans;
  projects =
      set_row project_id_of a.project_id (record project { latest_scan_id = some hook.fresh_scan })
        db.projects;
}

abbrev pub linked : Database → WebhookDelivery → Uuid → Database
linked db delivery scan_id = record db {
  webhook_deliveries =
      update_where (λ (d : WebhookDelivery). d.id == delivery.id) (with_scan scan_id)
        db.webhook_deliveries;
}

-- The flush and the commit of the scan: none when a constraint refuses it.
abbrev pub insert_for : Database → Hook → Accepted → Option Project → Option Database
insert_for db hook a none = none
insert_for db hook a (some project) =
    if any (λ (s : Scan). s.id == hook.fresh_scan) db.scans || any (active_in a.project_id) db.scans
    then none
    else some (with_hook_scan db hook a project)

abbrev pub hook_dispatched : Result String String → Scan → Scan
hook_dispatched (ok task_id) scan = record scan { celery_task_id = some task_id }
hook_dispatched (err exc) scan = marked_failed scan ("webhook_enqueue_failed: " +++ exc)

-- After a refused insert the session is rolled back, and the log line in front of `return None` reads
-- `project.id`, which the rollback has expired.
abbrev pub dispatch_hook :
    (Scan → Result String String)
    → Database
    → Hook
    → Accepted
    → Option Database
    → Result WebhookError Uuid × Database
dispatch_hook enqueue db hook a none = (err missing_greenlet, db)
dispatch_hook enqueue db hook a (some saved) = (
  ok hook.fresh_scan,
  on_scan (hook_dispatched (enqueue (hook_scan hook a))) hook.fresh_scan
      (find scan_id_of hook.fresh_scan saved.scans) saved,
)

-- `_enqueue_source_scan`
pub enqueue_source_scan :
    (Scan → Result String String) → Database → Hook → Accepted → Result WebhookError Uuid × Database
enqueue_source_scan enqueue db hook a =
    dispatch_hook enqueue db hook a
      (insert_for db hook a (find project_id_of a.project_id db.projects))

pub data HookStatus : Type 0 where
  enqueued duplicate ignored : HookStatus

pub record Processed : Type 0 where
  pub status : HookStatus
  pub delivery : WebhookDelivery
  pub scan_id : Option Uuid

abbrev pub is_scan_event : Provider → Text → Bool
is_scan_event github event = text_eq event (codes "push") || text_eq event (codes "pull_request")
is_scan_event gitlab event =
    text_eq event (codes "Push Hook") || text_eq event (codes "Merge Request Hook")

-- The answer after the enqueue, and the pointer of the delivery to its scan.
abbrev pub answer_enqueued :
    WebhookDelivery → Result WebhookError Uuid × Database → Result WebhookError Processed × Database
answer_enqueued delivery (err e, db) = (err e, db)
answer_enqueued delivery (ok scan_id, db) = (
  ok (record { status = enqueued; delivery = with_scan scan_id delivery; scan_id = some scan_id }),
  linked db delivery scan_id,
)

abbrev pub process_recorded :
    (Scan → Result String String)
    → Hook
    → Accepted
    → WebhookDelivery × Bool × Database
    → Result WebhookError Processed × Database
process_recorded enqueue hook a (delivery, false, db) =
    (ok (record { status = duplicate; delivery = delivery; scan_id = none }), db)
process_recorded enqueue hook a (delivery, true, db) =
    if is_scan_event a.provider a.event
    then answer_enqueued delivery (enqueue_source_scan enqueue db hook a)
    else (ok (record { status = ignored; delivery = delivery; scan_id = none }), db)

abbrev pub process_accepted :
    Digests
    → (Scan → Result String String)
    → Database
    → Hook
    → Result WebhookError Accepted
    → Result WebhookError Processed × Database
process_accepted h enqueue db hook (err e) = (err e, db)
process_accepted h enqueue db hook (ok a) =
    process_recorded enqueue hook a (record_delivery h db hook a)

-- `process_github_webhook` and `process_gitlab_webhook`
pub process_webhook :
    Digests
    → (Scan → Result String String)
    → Provider
    → Database
    → Database
    → Hook
    → Result WebhookError Processed × Database
unfolding accept record_delivery enqueue_source_scan
process_webhook h enqueue provider seen db hook =
    process_accepted h enqueue db hook (accept h seen provider hook)

-- One webhook request: the answers of the queue, the provider, the snapshot and the request.
pub record Request : Type 0 where
  pub enqueue : Scan → Result String String
  pub provider : Provider
  pub seen : Database
  pub hook : Hook

pub step : Digests → Database → Request → Database
unfolding process_webhook
step h db q = (process_webhook h q.enqueue q.provider q.seen db q.hook).1

pub run : Digests → Database → List Request → Database
unfolding step
run h db [] = db
run h db (q ∷ qs) = run h (step h db q) qs
