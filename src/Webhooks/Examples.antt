-- ===== src/Webhooks/Examples.antt =====
-- Webhook requests at a concrete project, and the theorems on them. The digest of the examples is the
-- secret in front of the body.
use trustedoss_portal.Prelude.{◌≡◌, refl, String, true, some, [], ◌∷◌, ◌++◌, codes, Result, ok}
use trustedoss_portal.Model.{github, FindingStatus, ApprovalStatus, ScanStatus, Scan, Database}
use trustedoss_portal.Json.{str, obj, end, field, get}
use trustedoss_portal.Samples.{store}
use trustedoss_portal.Webhooks.Payload.{after_prefix, from_hex, normalize_repo_url, github_repo_url}
use trustedoss_portal.Webhooks.Acceptance.{Digests, Hook, Accepted, accept}
use trustedoss_portal.Webhooks.{
  recordable, new_delivery, with_scan, enqueued, process_webhook, Request, run,
}
use trustedoss_portal.Webhooks.Replay.{delivery_enqueues_once}
use trustedoss_portal.Webhooks.Enqueued.{push_enqueues}

-- The suffix goes first, and slashes after it.
url_with_suffix : normalize_repo_url (codes " https://h/r.git ") ≡ some (codes "https://h/r")
unfolding normalize_repo_url
url_with_suffix = refl

url_with_slash : normalize_repo_url (codes "https://h/r.git/") ≡ some (codes "https://h/r.git")
unfolding normalize_repo_url
url_with_slash = refl

hex_with_spaces : from_hex (codes "0A fF") ≡ some (10 ∷ 255 ∷ [])
unfolding from_hex
hex_with_spaces = refl

abbrev digests : Digests
digests = record { hmac_sha256 = λ secret body. secret ++ body; sha256_hex = λ body. body }

-- A push to the repository of the project, signed with its secret.
abbrev push : Hook
push = record {
  body = 1 ∷ [];
  signature = some (codes "sha256=73656372657401");
  delivery_id = some (codes "d-1");
  event = some (codes "push");
  payload =
      field (codes "repository")
        (obj (field (codes "clone_url") (str (codes "https://example.com/portal.git")) end)) end;
  now = 40;
  fresh_delivery = 401;
  fresh_scan = 402;
}

abbrev accepted : Accepted
accepted = record {
  provider = github;
  project_id = 21;
  delivery_id = codes "d-1";
  event = codes "push";
}

abbrev idle : Database
idle = store FindingStatus.new ApprovalStatus.pending ScanStatus.failed

abbrev busy : Database
busy = store FindingStatus.new ApprovalStatus.pending ScanStatus.running

abbrev takes : Scan → Result String String
takes s = ok "task"

push-accepted : accept digests idle github push ≡ ok accepted
unfolding accept github_repo_url get normalize_repo_url after_prefix from_hex
push-accepted = refl

idle-recordable : recordable idle push accepted ≡ true
unfolding recordable
idle-recordable = refl

abbrev repeated : Request
repeated = record { enqueue = takes; provider = github; seen = busy; hook = push }

delivery_enqueues_once_example :
    (process_webhook digests takes github idle
      (run digests (process_webhook digests takes github idle idle push).1 (repeated ∷ []))
      push).1
    ≡ run digests (process_webhook digests takes github idle idle push).1 (repeated ∷ [])
delivery_enqueues_once_example =
    delivery_enqueues_once digests takes takes github idle idle idle push push
      (record {
        status = enqueued;
        delivery = with_scan 402 (new_delivery digests push accepted);
        scan_id = some 402;
      })
      402 (repeated ∷ [])
      (push_enqueues digests takes github idle idle push accepted push-accepted refl idle-recordable
        refl refl).0
      refl refl
