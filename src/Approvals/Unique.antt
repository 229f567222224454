-- ===== src/Approvals/Unique.antt =====
-- At most one open approval for a component in a project, over every run of requests.
use trustedoss_portal.Prelude.{
  ◌≤◌, true, false, List, [], ◌∷◌, ◌==◌, Uuid, ok, ◌>>=◌, require, any, count_if, bit, Bool-cases,
  arith, ◌≡◌, inl, inr, ap,
}
use trustedoss_portal.Prelude.{
  >>=-eq-ok, require-eq-ok, commit_inv, any-eq-false, count_if-set_row, count_if-remove_row_le,
}
use mathlib.Core.Path.{subst₂}
use trustedoss_portal.Model.{ApprovalStatus, ComponentApproval, Database}
use trustedoss_portal.Security.{CurrentUser}
use trustedoss_portal.Approvals.Status.{is_open, transition_map}
use trustedoss_portal.Approvals.{
  approval_not_found, Transition, decided, transition_row, transition_approval, approval_id_of,
  find_approval, open_for, NewApproval, check_create, insert_checked, create_approval, delete_row,
  delete_approval, Request, create, transition, delete, step, run,
}
use trustedoss_portal.Approvals.Guards.{moves_to, Moved, transition_row-Moved}

-- `ix_component_approvals_unique_open`
pub record IsUniqueOpen (db : Database) : Type 0 where
  pub at : (c p : Uuid) → count_if (open_for c p) db.component_approvals ≤ 1

open_for_pair :
    (c p : Uuid) (row : ComponentApproval)
    → open_for c p row ≡ true
    → (row.component_id ≡ c) × (row.project_id ≡ p)
open_for_pair c p row h = ground arith

insert-count :
    (row : ComponentApproval) (rows : List ComponentApproval) (c p : Uuid)
    → count_if (open_for row.component_id row.project_id) rows ≡ 0
    → count_if (open_for c p) rows ≤ 1
    → count_if (open_for c p) (row ∷ rows) ≤ 1
insert-count row rows c p none_open below = elim (Bool-cases (open_for c p row)) [
  | inl opens ↦
      let (ec, ep) = open_for_pair c p row opens in
      let z : count_if (open_for c p) rows ≡ 0 =
        subst₂ (λ a b. count_if (open_for a b) rows ≡ 0) ec ep none_open in
      omega (arith, z, ap bit opens)
  | inr other ↦ omega (arith, below, ap bit other)
]

moves_from_open : (s t : ApprovalStatus) → moves_to s t ≡ true → is_open t ≡ true → is_open s ≡ true
unfolding transition_map
moves_from_open s t e o = ground arith

-- A transition opens nothing.
open_for-Moved :
    (req : Transition) (row row' : ComponentApproval) (c p : Uuid)
    → Moved req row row'
    → bit (open_for c p row') ≤ bit (open_for c p row)
unfolding decided
open_for-Moved req row row' c p m =
    rw m.written (ground (arith, moves_from_open row.status m.target m.edge))

transition-IsUniqueOpen :
    (db : Database) (req : Transition)
    → IsUniqueOpen db
    → IsUniqueOpen (transition_approval db req).1
unfolding transition_approval
transition-IsUniqueOpen db req u =
    commit_inv IsUniqueOpen
      (do row ← require (find_approval req.id db) approval_not_found; transition_row req row) _ db u
      λ row' passed. record {
        at = λ c p.
            let (row, found, moved) =
              >>=-eq-ok (require (find_approval req.id db) approval_not_found) _ passed in
            omega (
              arith,
              u.at c p,
              count_if-set_row approval_id_of (open_for c p) req.id row row' db.component_approvals
                  (require-eq-ok (find_approval req.id db) approval_not_found found),
              open_for-Moved req row row' c p (transition_row-Moved req row row' moved),
            );
      }

delete-IsUniqueOpen :
    (seen db : Database) (actor : CurrentUser) (id : Uuid)
    → IsUniqueOpen db
    → IsUniqueOpen (delete_approval seen db actor id).1
unfolding delete_approval
delete-IsUniqueOpen seen db actor id u =
    commit_inv IsUniqueOpen
      (do row ← require (find_approval id seen) approval_not_found; delete_row actor row) _ db u
      λ _ _. record {
        at = λ c p. omega (
          arith,
          u.at c p,
          count_if-remove_row_le approval_id_of (open_for c p) id db.component_approvals,
        );
      }

pub insert_checked-ok :
    (db : Database) (row row' : ComponentApproval)
    → insert_checked db row ≡ ok row'
    → (row ≡ row')
      × (any (λ (r : ComponentApproval). r.id == row.id) db.component_approvals ≡ false)
      × (any (open_for row.component_id row.project_id) db.component_approvals ≡ false)
unfolding insert_checked
insert_checked-ok db row row' h = ground arith

create-IsUniqueOpen :
    (seen db : Database) (req : NewApproval)
    → IsUniqueOpen db
    → IsUniqueOpen (create_approval seen db req).1
unfolding create_approval
create-IsUniqueOpen seen db req u =
    commit_inv IsUniqueOpen (do row ← check_create seen req; insert_checked db row) _ db u
      λ row' passed. record {
        at = λ c p.
            let (row, _, inserted) = >>=-eq-ok (check_create seen req) _ passed in
            let (same, _, closed) = insert_checked-ok db row row' inserted in
            rw (← same) (
              insert-count row db.component_approvals c p
                (any-eq-false (open_for row.component_id row.project_id) db.component_approvals
                  closed)
                (u.at c p));
      }

step-IsUniqueOpen : (db : Database) (q : Request) → IsUniqueOpen db → IsUniqueOpen (step db q)
unfolding step
step-IsUniqueOpen db (create seen req) u = create-IsUniqueOpen seen db req u
step-IsUniqueOpen db (transition req) u = transition-IsUniqueOpen db req u
step-IsUniqueOpen db (delete seen actor id) u = delete-IsUniqueOpen seen db actor id u

-- No run of creates (each checked on whatever older snapshot it read), transitions and deletes
-- leaves two open approvals for one component in one project, if the run starts with none such.
pub run-IsUniqueOpen :
    (db : Database) (qs : List Request) → IsUniqueOpen db → IsUniqueOpen (run db qs)
unfolding run
run-IsUniqueOpen db [] u = u
run-IsUniqueOpen db (q ∷ qs) u = run-IsUniqueOpen (step db q) qs (step-IsUniqueOpen db q u)
