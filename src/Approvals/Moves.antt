-- ===== src/Approvals/Moves.antt =====
-- What a committed transition writes.
use trustedoss_portal.Prelude.{
  ◌+◌, true, false, some, ◌==◌, ==_iff, ==_refl, if◌then◌else◌, Uuid, ok, err, Bool-cases, arith,
  ◌≡◌, inl, inr, refl, ◌∙◌,
}
use trustedoss_portal.Prelude.{find-set_row_self, find-set_row_ne, find, key-find, set_row}
use trustedoss_portal.Model.{ApprovalStatus, ComponentApproval, Database}
use trustedoss_portal.Security.{can_access_team}
use trustedoss_portal.Approvals.Status.{status_name, is_terminal}
use trustedoss_portal.Approvals.{
  ApprovalError, etag_mismatch, Transition, decided, transition_row, transition_approval,
  approval_id_of, find_approval,
}
use trustedoss_portal.Approvals.Guards.{moves_to, Moved, transition-Moved}

-- Who decided, as the row records it.
abbrev pub Recorded : Transition → ApprovalStatus → ComponentApproval → ComponentApproval → Type 0
Recorded req target row row' =
    (row'.decided_by_user_id
      ≡ (if is_terminal target then some req.actor.id else row.decided_by_user_id))
    × (row'.decided_at ≡ (if is_terminal target then some req.now else row.decided_at))
    × (row'.decision_note ≡ (if is_terminal target then req.decision_note else row.decision_note))

id-decided :
    (req : Transition) (t : ApprovalStatus) (row : ComponentApproval)
    → (decided req t row).id ≡ row.id
unfolding decided
id-decided req t row = ground arith

pub Moved-id :
    (req : Transition) (row row' : ComponentApproval) → Moved req row row' → row'.id ≡ row.id
unfolding decided
Moved-id req row row' m = rw m.written (ground arith)

pub Moved-fields :
    (req : Transition) (row row' : ComponentApproval)
    → Moved req row row'
    → (status_name row'.status ≡ req.action)
      × (moves_to row.status row'.status ≡ true)
      × (row'.version ≡ row.version + 1)
      × (row.version ≡ req.if_match)
      × Recorded req row'.status row row'
unfolding decided
Moved-fields req row row' m = rw m.written (ground (arith, m.spelled, m.edge, m.matched))

pub find_saved :
    (db : Database) (id : Uuid) (row row' : ComponentApproval) (j : Uuid)
    → find_approval id db ≡ some row
    → row'.id ≡ id
    → find approval_id_of j (set_row approval_id_of id row' db.component_approvals)
      ≡ (if id == j then some row' else find_approval j db)
find_saved db id row row' j found e = elim (Bool-cases (id == j)) [
  | inl here ↦ rw here (
      rw (← (==_iff id j).0 here)
        (find-set_row_self approval_id_of id row row' db.component_approvals found e))
  | inr other ↦ rw other (find-set_row_ne approval_id_of id j row' db.component_approvals e other)
]

-- A committed transition writes exactly the row that it names: the row's version equalled the
-- request's If-Match and goes up by one, the status becomes the requested one along an edge of
-- the table, the decision columns are set exactly when that status is terminal, and every other
-- row is as before.
pub transition-writes :
    (db : Database) (req : Transition) (row' : ComponentApproval) (j : Uuid)
    → (transition_approval db req).0 ≡ ok row'
    → (row : ComponentApproval) × (find_approval req.id db ≡ some row)
      × (row.version ≡ req.if_match)
      × (row'.version ≡ row.version + 1)
      × (status_name row'.status ≡ req.action)
      × (moves_to row.status row'.status ≡ true)
      × Recorded req row'.status row row'
      × (find_approval j (transition_approval db req).1
          ≡ (if req.id == j then some row' else find_approval j db))
transition-writes db req row' j h =
    let (row, found, m, saved) = transition-Moved db req row' h in
    let (spelled, edge, next, matched, recorded) = Moved-fields req row row' m in
    let id' : row'.id ≡ req.id =
      Moved-id req row row' m ∙ key-find approval_id_of req.id db.component_approvals row found in
    (
      row,
      found,
      matched,
      next,
      spelled,
      edge,
      recorded,
      rw saved (find_saved db req.id row row' j found id'),
    )

stale_row :
    (req : Transition) (row : ComponentApproval)
    → can_access_team req.actor row.team_id ≡ true
    → (req.if_match == row.version) ≡ false
    → transition_row req row ≡ err etag_mismatch
unfolding transition_row
stale_row req row access stale = rw access (rw stale refl)

transition-err :
    (db : Database) (req : Transition) (row : ComponentApproval) (e : ApprovalError)
    → find_approval req.id db ≡ some row
    → transition_row req row ≡ err e
    → transition_approval db req ≡ (err e, db)
unfolding transition_approval
transition-err db req row e found failed = rw found (rw failed refl)

team-Moved :
    (req : Transition) (row row' : ComponentApproval)
    → Moved req row row'
    → row'.team_id ≡ row.team_id
unfolding decided
team-Moved req row row' m = rw m.written (ground arith)

-- No lost update: once a transition has been committed, a second transition of the same row that echoes the same
-- version is refused with an ETag mismatch and writes nothing, if its actor has access to the row's team.
pub second_transition_refused :
    (db : Database) (first second : Transition) (row' : ComponentApproval)
    → (transition_approval db first).0 ≡ ok row'
    → second.id ≡ first.id
    → second.if_match ≡ first.if_match
    → can_access_team second.actor row'.team_id ≡ true
    → transition_approval (transition_approval db first).1 second
      ≡ (err etag_mismatch, (transition_approval db first).1)
second_transition_refused db first second row' h same echoed access =
    let (row, _, matched, next, _, _, _, saved) = transition-writes db first row' first.id h in
    transition-err (transition_approval db first).1 second row' etag_mismatch
      (rw same (rw (==_refl first.id) at saved))
      (stale_row second row' access (rw (echoed, next) (ground (arith, matched))))
