-- ===== src/Webhooks/Acceptance.antt =====
-- apps/backend/services/webhook_service.py: a delivery up to the signature: its headers, its project,
-- and the secret that the project has.
use mathlib.Core.List.{◌++◌}
use trustedoss_portal.Prelude.{
  ℕ, Bool, true, false, not, ◌&&◌, ◌||◌, Option, none, some, List, [], ◌∷◌, is_some, Uuid,
  Timestamp, Text, text_eq, starts_with, Result, ok, err, guard, ◌>>=◌, ◌>>◌, require, find_by,
}
use trustedoss_portal.Model.{Provider, github, gitlab, Project, Database}
use trustedoss_portal.Json.{Fields}
use trustedoss_portal.Webhooks.Payload.{
  from_hex, signature_prefix, after_prefix, normalize_repo_url, git_suffix, github_repo_url,
  gitlab_repo_url,
}

-- `missing_greenlet` is what the async session raises on an attribute that a rollback has expired.
pub data WebhookError : Type 0 where
  signature_invalid project_not_found header_missing missing_greenlet : WebhookError

pub record Digests : Type 0 where
  pub hmac_sha256 : Text → List ℕ → List ℕ
  pub sha256_hex : List ℕ → Text

-- `hmac.compare_digest` of two byte strings
abbrev pub same_bytes : Option (List ℕ) → List ℕ → Bool
same_bytes none expected = false
same_bytes (some received) expected = text_eq received expected

abbrev pub is_given : Text → Bool
is_given [] = false
is_given (c ∷ s) = true

-- `verify_github_signature`; digests of different lengths are unequal.
unfoldable pub verify_github_signature : Digests → List ℕ → Text → Text → Bool
verify_github_signature h body signature_header secret =
    starts_with signature_prefix signature_header
    && (is_given (after_prefix signature_prefix signature_header)
        && same_bytes (from_hex (after_prefix signature_prefix signature_header))
            (h.hmac_sha256 secret body))

-- `verify_gitlab_token`
unfoldable pub verify_gitlab_token : Text → Text → Bool
verify_gitlab_token received_token secret = text_eq received_token secret

-- A request, as the routes hand it over, with what the database and the queue would give it.
pub record Hook : Type 0 where
  pub body : List ℕ
  pub signature : Option Text
  pub delivery_id : Option Text
  pub event : Option Text
  pub payload : Fields
  pub now : Timestamp
  pub fresh_delivery : Uuid
  pub fresh_scan : Uuid

abbrev pub same_provider : Provider → Provider → Bool
same_provider github github = true
same_provider gitlab gitlab = true
same_provider _ _ = false

abbrev pub provided : Option Provider → Provider → Bool
provided none p = false
provided (some q) p = same_provider q p

abbrev pub is_url : Option Text → Text → Bool
is_url none url = false
is_url (some u) url = text_eq u url

-- The `WHERE` clause of `_find_project_by_git_url`.
unfoldable pub matches_url : Provider → Text → Project → Bool
matches_url provider canonical p =
    (is_url p.git_url canonical || is_url p.git_url (canonical ++ git_suffix))
    && (is_some p.webhook_secret
        && (provided p.webhook_provider provider && not (is_some p.archived_at)))

abbrev pub find_canonical : Database → Provider → Option Text → Option Project
find_canonical seen provider none = none
find_canonical seen provider (some canonical) =
    find_by (matches_url provider canonical) seen.projects

-- `_find_project_by_git_url`
unfoldable pub find_project_by_git_url : Database → Provider → Text → Option Project
unfolding matches_url
find_project_by_git_url seen provider repo_url =
    find_canonical seen provider (normalize_repo_url repo_url)

-- A request that passed the checks.
pub record Accepted : Type 0 where
  pub provider : Provider
  pub project_id : Uuid
  pub delivery_id : Text
  pub event : Text

-- `if not header`
abbrev pub present : Option Text → Result WebhookError Text
present none = err header_missing
present (some []) = err header_missing
present (some (c ∷ s)) = ok (c ∷ s)

abbrev pub verified : Provider → Digests → List ℕ → Text → Text → Bool
verified github h body header secret = verify_github_signature h body header secret
verified gitlab h body header secret = verify_gitlab_token header secret

abbrev pub repo_url_of : Provider → Fields → Option Text
repo_url_of github payload = github_repo_url payload
repo_url_of gitlab payload = gitlab_repo_url payload

-- The steps of `process_github_webhook` and `process_gitlab_webhook` before the first write.
unfoldable pub accept : Digests → Database → Provider → Hook → Result WebhookError Accepted
unfolding find_project_by_git_url verify_github_signature verify_gitlab_token
accept h seen provider hook = do
  signature ← present hook.signature
  delivery_id ← present hook.delivery_id
  event ← present hook.event
  repo_url ← require (repo_url_of provider hook.payload) project_not_found
  project ← require (find_project_by_git_url seen provider repo_url) project_not_found
  secret ← require project.webhook_secret project_not_found
  guard (verified provider h hook.body signature secret) signature_invalid
  ok (record {
    provider = provider;
    project_id = project.id;
    delivery_id = delivery_id;
    event = event;
  })
