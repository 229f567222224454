-- ===== src/Approvals/Status.antt =====
-- services/component_approval_service.py: the statuses of an approval and the transition table.
use trustedoss_portal.Prelude.{
  ℕ, String, Bool, true, false, Option, none, some, List, [], ◌∷◌, ◌==◌, str_eq, if◌then◌else◌,
}
use trustedoss_portal.Model.{ApprovalStatus, pending, under_review, approved, rejected}

abbrev pub ordinal : ApprovalStatus → ℕ
ordinal pending = 0
ordinal under_review = 1
ordinal approved = 2
ordinal rejected = 3

abbrev pub same_status : ApprovalStatus → ApprovalStatus → Bool
same_status a b = ordinal a == ordinal b

unfoldable pub status_name : ApprovalStatus → String
status_name pending = "pending"
status_name under_review = "under_review"
status_name approved = "approved"
status_name rejected = "rejected"

-- `status IN ('pending', 'under_review')`
abbrev pub is_open : ApprovalStatus → Bool
is_open pending = true
is_open under_review = true
is_open _ = false

-- `_TERMINAL_STATES`
abbrev pub is_terminal : ApprovalStatus → Bool
is_terminal approved = true
is_terminal rejected = true
is_terminal _ = false

-- `_TRANSITION_MAP`, each set in the order that `sorted` gives it.
unfoldable pub transition_map : ApprovalStatus → List ApprovalStatus
transition_map pending = rejected ∷ under_review ∷ []
transition_map under_review = approved ∷ rejected ∷ []
transition_map approved = []
transition_map rejected = []

-- `_REQUIRES_TEAM_ADMIN`
abbrev pub requires_team_admin : ApprovalStatus → Bool
requires_team_admin pending = false
requires_team_admin _ = true

-- The member of a set of statuses that a string spells.
unfoldable pub named : String → List ApprovalStatus → Option ApprovalStatus
unfolding status_name
named s [] = none
named s (t ∷ ts) = if str_eq s (status_name t) then some t else named s ts
