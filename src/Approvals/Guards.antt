-- ===== src/Approvals/Guards.antt =====
-- What the guards of a transition let through.
use trustedoss_portal.Prelude.{
  ◌+◌, String, Bool, true, not, ◌&&◌, some, List, [], ◌∷◌, ◌==◌, ==_iff, Uuid, ok, guard, ◌>>=◌,
  require, any, Bool-cases, arith, ◌≡◌, inl, inr, ap, ◌∙◌,
}
use trustedoss_portal.Prelude.{
  str_eq, eq_iff, >>=-eq-ok, require-eq-ok, guard-eq-ok, commit-eq-ok, set_row,
}
use trustedoss_portal.Model.{ApprovalStatus, ComponentApproval, Database}
use trustedoss_portal.Security.{CurrentUser, can_access_team, has_team_admin}
use trustedoss_portal.Approvals.Status.{
  same_status, status_name, transition_map, requires_team_admin, named,
}
use trustedoss_portal.Approvals.{
  approval_not_found, etag_mismatch, forbidden, invalid_transition, Transition, decided,
  transition_row, transition_approval, approval_id_of, find_approval, delete_row, delete_approval,
}

abbrev pub moves_to : ApprovalStatus → ApprovalStatus → Bool
moves_to s t = any (same_status t) (transition_map s)

named_sound :
    (x : String) (t : ApprovalStatus) (ts : List ApprovalStatus)
    → named x ts ≡ some t
    → (x ≡ status_name t) × (any (same_status t) ts ≡ true)
unfolding named
named_sound x t [] h = absurd (ground arith)
named_sound x t (u ∷ ts) h = elim (Bool-cases (str_eq x (status_name u))) [
  | inl here ↦
      let e : u ≡ t = ground (arith, here) in
      ((eq_iff x (status_name u)).0 here ∙ ap status_name e, rw e (ground arith))
  | inr more ↦
      let rest = named_sound x t ts (ground (arith, more)) in (rest.0, ground (arith, rest.1))
]

-- The facts behind a successful transition of a row.
pub record Moved (req : Transition) (row row' : ComponentApproval) : Type 0 where
  pub target : ApprovalStatus
  pub access : can_access_team req.actor row.team_id ≡ true
  pub matched : req.if_match ≡ row.version
  pub spelled : req.action ≡ status_name target
  pub edge : moves_to row.status target ≡ true
  pub admin : has_team_admin req.actor row.team_id ≡ true
  pub written :
      row' ≡ decided req target (record row { status = target; version = row.version + 1 })

admin_needed :
    (s t : ApprovalStatus) (b : Bool)
    → moves_to s t ≡ true
    → not (requires_team_admin t && not b) ≡ true
    → b ≡ true
unfolding transition_map
admin_needed s t b e h = ground arith

pub transition_row-Moved :
    (req : Transition) (row row' : ComponentApproval)
    → transition_row req row ≡ ok row'
    → Moved req row row'
unfolding transition_row
transition_row-Moved req row row' h =
    let (_, access, h1) =
      >>=-eq-ok (guard (can_access_team req.actor row.team_id) approval_not_found) _ h in
    let (_, matched, h2) = >>=-eq-ok (guard (req.if_match == row.version) etag_mismatch) _ h1 in
    let (target, spelled, h3) =
      >>=-eq-ok
        (require (named req.action (transition_map row.status))
          (invalid_transition (transition_map row.status)))
        _ h2 in
    let (_, admin, h4) =
      >>=-eq-ok
        (guard (not (requires_team_admin target && not (has_team_admin req.actor row.team_id)))
          forbidden)
        _ h3 in
    let (name, edge) = named_sound req.action target (transition_map row.status) (
      require-eq-ok (named req.action (transition_map row.status))
        (invalid_transition (transition_map row.status)) spelled) in
    record {
      target = target;
      access = guard-eq-ok (can_access_team req.actor row.team_id) approval_not_found access;
      matched =
          (==_iff req.if_match row.version).0
            (guard-eq-ok (req.if_match == row.version) etag_mismatch matched);
      spelled = name;
      edge = edge;
      admin = admin_needed row.status target (has_team_admin req.actor row.team_id) edge (
          guard-eq-ok
            (not (requires_team_admin target && not (has_team_admin req.actor row.team_id)))
            forbidden admin);
      written = cc h4;
    }

-- The facts behind a transition that was committed.
pub transition-Moved :
    (db : Database) (req : Transition) (row' : ComponentApproval)
    → (transition_approval db req).0 ≡ ok row'
    → (row : ComponentApproval) × (find_approval req.id db ≡ some row)
      × Moved req row row'
      × ((transition_approval db req).1 ≡ record db {
        component_approvals = set_row approval_id_of req.id row' db.component_approvals;
      })
unfolding transition_approval
transition-Moved db req row' h =
    let (passed, saved) =
      commit-eq-ok
        (do row ← require (find_approval req.id db) approval_not_found; transition_row req row) _ db
        h in
    let (row, found, moved) =
      >>=-eq-ok (require (find_approval req.id db) approval_not_found) _ passed in
    (
      row,
      require-eq-ok (find_approval req.id db) approval_not_found found,
      transition_row-Moved req row row' moved,
      saved,
    )

pub delete-found :
    (seen db : Database) (actor : CurrentUser) (id : Uuid) (row' : ComponentApproval)
    → (delete_approval seen db actor id).0 ≡ ok row'
    → (row : ComponentApproval) × (find_approval id seen ≡ some row)
      × (delete_row actor row ≡ ok row')
unfolding delete_approval
delete-found seen db actor id row' h =
    let (passed, _) =
      commit-eq-ok
        (do row ← require (find_approval id seen) approval_not_found; delete_row actor row) _ db
        h in
    let (row, found, moved) =
      >>=-eq-ok (require (find_approval id seen) approval_not_found) _ passed in
    (row, require-eq-ok (find_approval id seen) approval_not_found found, moved)
