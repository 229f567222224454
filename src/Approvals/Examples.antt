-- ===== src/Approvals/Examples.antt =====
-- The theorems on approvals at concrete requests.
use trustedoss_portal.Prelude.{◌+◌, true, none, some, List, [], ◌∷◌, ok, err, arith, ◌≡◌, refl}
use trustedoss_portal.Model.{
  FindingStatus, pending, under_review, approved, ScanStatus, ComponentApproval, Database,
}
use trustedoss_portal.Security.{
  CurrentUser, can_access_team, has_team_admin, is_super, role_in_team, dict_get,
}
use trustedoss_portal.Samples.{alice, bob, carol, store, approval_row}
use trustedoss_portal.Approvals.Status.{status_name, named, transition_map}
use trustedoss_portal.Approvals.{
  approval_not_found, NewApproval, Transition, find_approval, decided, transition_row,
  transition_approval, get_approval, delete_approval, ListFilter, Request, create, transition,
  delete, step, run,
}
use trustedoss_portal.Approvals.Guards.{moves_to}
use trustedoss_portal.Approvals.Unique.{IsUniqueOpen, run-IsUniqueOpen}
use trustedoss_portal.Approvals.Moves.{Recorded, transition-writes}
use trustedoss_portal.Approvals.Decided.{decisions_are_final}
use trustedoss_portal.Approvals.Tenancy.{existence_hidden}

abbrev db : Database
db = store FindingStatus.analyzing pending ScanStatus.failed

abbrev decided_db : Database
decided_db = store FindingStatus.analyzing approved ScanStatus.failed

abbrev review : CurrentUser → Transition
review actor = record {
  actor = actor;
  id = 91;
  action = "under_review";
  decision_note = none;
  if_match = 1;
  now = 7;
}

abbrev request : NewApproval
request = record { actor = bob; component_id = 81; project_id = 21; id = 92; now = 8 }

abbrev requests : List Request
requests = create db request ∷ transition (review alice) ∷ delete db bob 91 ∷ create db request ∷ []

abbrev reviewed : ComponentApproval
reviewed = record (approval_row pending) { status = under_review; version = 2 }

db-IsUniqueOpen : IsUniqueOpen db
db-IsUniqueOpen = record { at = λ c p. ground arith }

run-IsUniqueOpen_example : IsUniqueOpen (run db requests)
run-IsUniqueOpen_example = run-IsUniqueOpen db requests db-IsUniqueOpen

review-ok : (transition_approval db (review alice)).0 ≡ ok reviewed
unfolding transition_approval transition_row named transition_map decided can_access_team
    has_team_admin role_in_team is_super dict_get
review-ok = refl

transition-writes_example :
    (row : ComponentApproval) × (find_approval 91 db ≡ some row)
    × (row.version ≡ 1)
    × (2 ≡ row.version + 1)
    × (status_name under_review ≡ "under_review")
    × (moves_to row.status under_review ≡ true)
    × Recorded (review alice) under_review row reviewed
    × (find_approval 91 (transition_approval db (review alice)).1 ≡ some reviewed)
transition-writes_example = transition-writes db (review alice) reviewed 91 review-ok

abbrev decided_requests : List Request
decided_requests =
    create db request
    ∷ transition (review alice)
    ∷ delete (step (step decided_db (create db request)) (transition (review alice))) bob 91
    ∷ []

decisions_are_final_example :
    find_approval 91 (run decided_db decided_requests) ≡ some (approval_row approved)
decisions_are_final_example =
    decisions_are_final (approval_row approved) decided_db decided_requests refl
      (tt, (tt, (refl, tt))) refl

existence_hidden_example :
    (get_approval db carol 91 ≡ err approval_not_found)
    × (transition_approval db (review carol) ≡ (err approval_not_found, db))
    × (delete_approval db db carol 91 ≡ (err approval_not_found, db))
existence_hidden_example =
    existence_hidden db (review carol) (unfold can_access_team is_super in refl)

abbrev everything : ListFilter
everything = record {
  status_filter = none;
  team_id = none;
  requested_by_user_id = none;
  from_dt = none;
  to_dt = none;
}
