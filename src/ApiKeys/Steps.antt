-- ===== src/ApiKeys/Steps.antt =====
-- Keys listed and revoked, as apps/backend/services/api_key_service.py does, and the requests
-- that reach the table. A request reads and commits at one moment.
pub mod Invariant
pub mod Revoked
pub mod Visible
pub mod Issued
use trustedoss_portal.Prelude.{
  ℕ, Bool, true, false, not, ◌&&◌, ◌||◌, Option, none, some, List, [], ◌∷◌, select, ltb, leb, ◌==◌,
  holds, is_some, if◌then◌else◌, Uuid, Timestamp, Text, count_if, Result, ok, err, guard, ◌>>=◌,
  ◌>>◌, require, find, update_where, order_by, page_of, clamp_size,
}
use trustedoss_portal.Model.{KeyScope, org, team, project, ApiKey, Database}
use trustedoss_portal.Security.{CurrentUser, is_super}
use trustedoss_portal.ApiKeys.{
  Hasher, KeyError, IssueRequest, Draw, within, can_view_key, can_revoke_key, issue_api_key,
  with_keys,
}
use trustedoss_portal.ApiKeys.Present.{get_current_api_key}

abbrev pub same_scope : KeyScope → KeyScope → Bool
same_scope org org = true
same_scope team team = true
same_scope project project = true
same_scope _ _ = false

-- The filters of `list_api_keys`; `none` means that the filter is not given. A scope outside the
-- closed set matches no row.
pub record KeyFilter : Type 0 where
  pub scope : Option KeyScope
  pub team_id : Option Uuid
  pub project_id : Option Uuid
  pub include_revoked : Bool

abbrev pub given {ℓ} : {A : Type ℓ} → Option A → (A → Bool) → Bool
given none test = true
given (some a) test = test a

-- The tenant gate of the query.
pub visible : CurrentUser → ApiKey → Bool
visible actor key =
    is_super actor || (holds key.created_by_user_id actor.id || within key.team_id actor.team_ids)

pub listed : CurrentUser → KeyFilter → ApiKey → Bool
unfolding visible
listed actor f key =
    visible actor key
    && (given f.scope (same_scope key.scope)
        && (given f.team_id (holds key.team_id)
            && (given f.project_id (holds key.project_id)
                && (f.include_revoked || not (is_some key.revoked_at)))))

-- `ORDER BY created_at DESC, id DESC`
abbrev pub newest_key_first : ApiKey → ApiKey → Bool
newest_key_first a b =
    ltb b.created_at a.created_at || ((a.created_at == b.created_at) && leb b.id a.id)

pub list_api_keys : Database → CurrentUser → KeyFilter → ℕ → ℕ → List ApiKey × ℕ
unfolding listed
list_api_keys db actor f page page_size = (
  page_of page (clamp_size page_size 200)
      (order_by newest_key_first (select (listed actor f) db.api_keys)),
  count_if (listed actor f) db.api_keys,
)

abbrev pub revoked : CurrentUser → Timestamp → ApiKey → ApiKey
revoked actor now key = record key { revoked_at = some now; revoked_by_user_id = some actor.id }

abbrev pub has_id : Uuid → ApiKey → Bool
has_id id key = key.id == id

-- The guards of `revoke_api_key`.
pub check_revoke : Database → CurrentUser → Uuid → Result KeyError ApiKey
unfolding can_view_key can_revoke_key
check_revoke db actor id = do
  key ← require (find (λ (k : ApiKey). k.id) id db.api_keys) KeyError.not_found
  guard (can_view_key actor key) KeyError.not_found
  guard (can_revoke_key actor key) KeyError.forbidden
  ok key

-- A second revocation changes nothing.
abbrev pub revoke_checked :
    Database
    → CurrentUser
    → Uuid
    → Timestamp
    → Result KeyError ApiKey
    → Result KeyError ApiKey × Database
revoke_checked db actor id now (err e) = (err e, db)
revoke_checked db actor id now (ok key) = if is_some key.revoked_at then (ok key, db) else (
  ok (revoked actor now key),
  with_keys db (update_where (has_id id) (revoked actor now) db.api_keys),
)

unfoldable pub revoke_api_key :
    Database → CurrentUser → Uuid → Timestamp → Result KeyError ApiKey × Database
unfolding check_revoke
revoke_api_key db actor id now = revoke_checked db actor id now (check_revoke db actor id)

-- One request; an issue carries the snapshot of its checks.
pub data Request : Type 0 where
  issue : Database → IssueRequest → (ℕ → Draw) → Request
  revoke : CurrentUser → Uuid → Timestamp → Request
  present : Option Text → Timestamp → Bool → Request

pub step : Hasher → Database → Request → Database
step h db (issue seen req draws) = (issue_api_key h seen db req draws).1
step h db (revoke actor id now) = (revoke_api_key db actor id now).1
step h db (present header now saved) = (get_current_api_key h db header now saved).1

pub run : Hasher → Database → List Request → Database
run h db [] = db
run h db (q ∷ qs) = run h (step h db q) qs
