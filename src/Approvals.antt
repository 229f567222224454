-- ===== src/Approvals.antt =====
-- apps/backend/services/component_approval_service.py: the approval workflow of a component in a
-- project. Reads and writes are the service's; the unique index and the primary key are those of
-- models/component_approval.py. `seen` is the snapshot that the checks of a create read, which
-- may be older than the store that its commit meets.
pub mod Status
mod Guards
mod Moves
mod Unique
mod Decided
mod Tenancy
mod Examples
use trustedoss_portal.Prelude.{
  ℕ, suc, ◌+◌, String, Bool, true, false, not, ◌&&◌, ◌||◌, Option, none, some, List, [], ◌∷◌, ◌++◌,
  map, select, leb, ltb, ◌==◌, holds, if◌then◌else◌, Uuid, Timestamp, any, count_if, contains,
  Result, ok, err, guard, ◌>>=◌, ◌>>◌, require, commit, find, find_by, set_row, remove_row,
  order_by, page_of, clamp_size,
}
use trustedoss_portal.Model.{
  ApprovalStatus, pending, under_review, approved, rejected, Component, ComponentApproval, Project,
  Database,
}
use trustedoss_portal.Security.{
  CurrentUser, is_super, can_access_team, has_team_admin, assert_team_access,
}
use trustedoss_portal.Approvals.Status.{
  same_status, is_open, is_terminal, transition_map, requires_team_admin, named,
}

-- An invalid transition carries the statuses that are allowed instead.
pub data ApprovalError : Type 0 where
  approval_not_found already_open etag_mismatch terminal_state forbidden : ApprovalError
  invalid_transition : List ApprovalStatus → ApprovalError

abbrev pub approval_id_of : ComponentApproval → Uuid
approval_id_of r = r.id

abbrev pub find_approval : Uuid → Database → Option ComponentApproval
find_approval id db = find approval_id_of id db.component_approvals

-- The rows that `ix_component_approvals_unique_open` covers for one component and project.
abbrev pub open_for : Uuid → Uuid → ComponentApproval → Bool
open_for component_id project_id r =
    (r.component_id == component_id) && ((r.project_id == project_id) && is_open r.status)

-- `get_approval`
pub get_approval : Database → CurrentUser → Uuid → Result ApprovalError ComponentApproval
get_approval db actor id = do
  row ← require (find_approval id db) approval_not_found
  assert_team_access actor row.team_id approval_not_found
  ok row

-- The parameters of a create, with the identifier and the moment that the database assigns.
pub record NewApproval : Type 0 where
  pub actor : CurrentUser
  pub component_id : Uuid
  pub project_id : Uuid
  pub id : Uuid
  pub now : Timestamp

-- `create_approval` up to the insert, on the snapshot that it reads.
pub check_create : Database → NewApproval → Result ApprovalError ComponentApproval
check_create seen req = do
  project ← require (find (λ (p : Project). p.id) req.project_id seen.projects) approval_not_found
  assert_team_access req.actor project.team_id approval_not_found
  _ ← require (find (λ (c : Component). c.id) req.component_id seen.components) approval_not_found
  guard (not (any (open_for req.component_id req.project_id) seen.component_approvals)) already_open
  ok (record {
    id = req.id;
    component_id = req.component_id;
    project_id = req.project_id;
    team_id = project.team_id;
    requested_by_user_id = some req.actor.id;
    requested_at = req.now;
    status = pending;
    decided_by_user_id = none;
    decided_at = none;
    decision_note = none;
    version = 1;
  })

-- The commit of the insert: the primary key and the partial unique index of the store raise
-- `IntegrityError`, which the service turns into `ApprovalAlreadyOpen`.
pub insert_checked : Database → ComponentApproval → Result ApprovalError ComponentApproval
insert_checked db row = do
  guard (not (any (λ (r : ComponentApproval). r.id == row.id) db.component_approvals)) already_open
  guard (not (any (open_for row.component_id row.project_id) db.component_approvals)) already_open
  ok row

pub create_approval :
    Database → Database → NewApproval → Result ApprovalError ComponentApproval × Database
create_approval seen db req =
    commit (do row ← check_create seen req; insert_checked db row)
      (λ row. record db { component_approvals = row ∷ db.component_approvals }) db

-- The parameters of a transition, and the clock reading of the handler.
pub record Transition : Type 0 where
  pub actor : CurrentUser
  pub id : Uuid
  pub action : String
  pub decision_note : Option String
  pub if_match : ℕ
  pub now : Timestamp

-- `if action in _TERMINAL_STATES`: who decided, when, and the note.
pub decided : Transition → ApprovalStatus → ComponentApproval → ComponentApproval
decided req target row =
    if is_terminal target
    then record row {
      decided_by_user_id = some req.actor.id;
      decided_at = some req.now;
      decision_note = req.decision_note;
    }
    else row

-- The guards of `transition_approval` on the locked row, in the order of the code.
pub transition_row : Transition → ComponentApproval → Result ApprovalError ComponentApproval
unfolding decided
transition_row req row = do
  guard (can_access_team req.actor row.team_id) approval_not_found
  guard (req.if_match == row.version) etag_mismatch
  target ←
      require (named req.action (transition_map row.status))
        (invalid_transition (transition_map row.status))
  guard (not (requires_team_admin target && not (has_team_admin req.actor row.team_id))) forbidden
  ok (decided req target (record row { status = target; version = row.version + 1 }))

pub transition_approval : Database → Transition → Result ApprovalError ComponentApproval × Database
transition_approval db req =
    commit (do row ← require (find_approval req.id db) approval_not_found; transition_row req row)
      (λ row. record db {
        component_approvals = set_row approval_id_of req.id row db.component_approvals;
      })
      db

-- The guards of `delete_approval` on the row.
pub delete_row : CurrentUser → ComponentApproval → Result ApprovalError ComponentApproval
delete_row actor row = do
  guard (can_access_team actor row.team_id) approval_not_found
  guard (not (is_terminal row.status)) terminal_state
  guard (holds row.requested_by_user_id actor.id || has_team_admin actor row.team_id)
      approval_not_found
  ok row

-- The row is loaded without a lock, and the DELETE goes by its id.
pub delete_approval :
    Database → Database → CurrentUser → Uuid → Result ApprovalError ComponentApproval × Database
delete_approval seen db actor id =
    commit (do row ← require (find_approval id seen) approval_not_found; delete_row actor row)
      (λ row. record db {
        component_approvals = remove_row approval_id_of id db.component_approvals;
      })
      db

-- The filters of `list_approvals`; `none` means that the filter is not given.
pub record ListFilter : Type 0 where
  pub status_filter : Option ApprovalStatus
  pub team_id : Option Uuid
  pub requested_by_user_id : Option Uuid
  pub from_dt : Option Timestamp
  pub to_dt : Option Timestamp

abbrev pub given {ℓ} : {A : Type ℓ} → Option A → (A → Bool) → Bool
given none test = true
given (some a) test = test a

-- The `WHERE` clause: the tenant gate and the filters.
pub listed : CurrentUser → ListFilter → ComponentApproval → Bool
listed actor f r =
    (is_super actor || contains r.team_id actor.team_ids)
    && (given f.team_id (λ t. r.team_id == t)
        && (given f.status_filter (λ s. same_status r.status s)
            && (given f.requested_by_user_id (λ u. holds r.requested_by_user_id u)
                && (given f.from_dt (λ t. leb t r.requested_at)
                    && given f.to_dt (λ t. leb r.requested_at t)))))

-- `ORDER BY requested_at DESC, id DESC`
abbrev pub newest_first : ComponentApproval → ComponentApproval → Bool
newest_first a b =
    ltb b.requested_at a.requested_at || ((a.requested_at == b.requested_at) && leb b.id a.id)

pub list_approvals : Database → CurrentUser → ListFilter → ℕ → ℕ → List ComponentApproval × ℕ
list_approvals db actor f page page_size = (
  page_of page (clamp_size page_size 200)
      (order_by newest_first (select (listed actor f) db.component_approvals)),
  count_if (listed actor f) db.component_approvals,
)

-- One request of the service; a create and a delete carry the snapshot that their checks read.
pub data Request : Type 0 where
  create : Database → NewApproval → Request
  transition : Transition → Request
  delete : Database → CurrentUser → Uuid → Request

pub step : Database → Request → Database
step db (create seen req) = (create_approval seen db req).1
step db (transition req) = (transition_approval db req).1
step db (delete seen actor id) = (delete_approval seen db actor id).1

pub run : Database → List Request → Database
run db [] = db
run db (q ∷ qs) = run (step db q) qs
