-- ===== src/Approvals/Tenancy.antt =====
-- The tenant boundary: what a user outside the team can learn and reach.
use trustedoss_portal.Prelude.{
  ℕ, ◌≤◌, true, false, Option, none, some, Uuid, err, Option-cases, arith, ◌≡◌, inl, inr, refl,
}
use trustedoss_portal.Prelude.{
  All, length, select, order_by, clamp_size, All-select, All-order_by, All-page_of, length-page_of,
}
use trustedoss_portal.Model.{ComponentApproval, Database}
use trustedoss_portal.Security.{CurrentUser, can_access_team, assert_team_access}
use trustedoss_portal.Approvals.{
  approval_not_found, Transition, transition_row, transition_approval, find_approval, get_approval,
  delete_row, delete_approval, ListFilter, listed, newest_first, list_approvals,
}

-- There is no such row, or its team is closed to the actor.
abbrev pub Invisible : CurrentUser → Option ComponentApproval → Type 0
Invisible actor none = Unit
Invisible actor (some row) = can_access_team actor row.team_id ≡ false

get_hidden :
    (db : Database) (actor : CurrentUser) (id : Uuid)
    → Invisible actor (find_approval id db)
    → get_approval db actor id ≡ err approval_not_found
unfolding get_approval assert_team_access
get_hidden db actor id h = elim (Option-cases (find_approval id db)) [
  | inl missing ↦ rw missing refl
  | inr (row, found) ↦ rw found (ground (arith, rw found at h))
]

transition_hidden :
    (db : Database) (req : Transition)
    → Invisible req.actor (find_approval req.id db)
    → transition_approval db req ≡ (err approval_not_found, db)
unfolding transition_approval transition_row
transition_hidden db req h = elim (Option-cases (find_approval req.id db)) [
  | inl missing ↦ rw missing refl
  | inr (row, found) ↦
      let closed : can_access_team req.actor row.team_id ≡ false = rw found at h in
      rw found (rw closed refl)
]

delete_hidden :
    (db : Database) (actor : CurrentUser) (id : Uuid)
    → Invisible actor (find_approval id db)
    → delete_approval db db actor id ≡ (err approval_not_found, db)
unfolding delete_approval delete_row
delete_hidden db actor id h = elim (Option-cases (find_approval id db)) [
  | inl missing ↦ rw missing refl
  | inr (row, found) ↦
      let closed : can_access_team actor row.team_id ≡ false = rw found at h in
      rw found (rw closed refl)
]

-- Existence is hidden: whether a row is missing or belongs to a team that is closed to the actor,
-- reading it, moving it and deleting it give the same answer, not found, and write nothing.
pub existence_hidden :
    (db : Database) (req : Transition)
    → Invisible req.actor (find_approval req.id db)
    → (get_approval db req.actor req.id ≡ err approval_not_found)
      × (transition_approval db req ≡ (err approval_not_found, db))
      × (delete_approval db db req.actor req.id ≡ (err approval_not_found, db))
existence_hidden db req h = (
  get_hidden db req.actor req.id h,
  transition_hidden db req h,
  delete_hidden db req.actor req.id h,
)

listed_access :
    (actor : CurrentUser) (f : ListFilter) (r : ComponentApproval)
    → listed actor f r ≡ true
    → can_access_team actor r.team_id ≡ true
unfolding listed can_access_team
listed_access actor f r h = ground arith

-- A page of the approvals list holds at most 200 rows, and only rows of teams that the actor can
-- access, whatever the filters and the page.
pub list_approvals-tenancy :
    (db : Database) (actor : CurrentUser) (f : ListFilter) (page page_size : ℕ)
    → (All
        (λ (r : ComponentApproval). can_access_team actor r.team_id ≡ true)
        (list_approvals db actor f page page_size).0)
      × (length (list_approvals db actor f page page_size).0 ≤ 200)
unfolding list_approvals
list_approvals-tenancy db actor f page page_size = (
  All-page_of _ page (clamp_size page_size 200) _ (
      All-order_by newest_first _ _
        (All-select _ (listed actor f) db.component_approvals (listed_access actor f))),
  omega (
    arith,
    length-page_of page (clamp_size page_size 200)
        (order_by newest_first (select (listed actor f) db.component_approvals)),
  ),
)
