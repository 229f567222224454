-- ===== src/Triage/Status.antt =====
-- services/vulnerability_service.py: the statuses, their names and the transition table.
use trustedoss_portal.Prelude.{
  ℕ, String, Bool, true, false, Option, none, some, List, [], ◌∷◌, ◌==◌, str_eq, if◌then◌else◌, any,
}
use trustedoss_portal.Model.{
  FindingStatus, new, analyzing, exploitable, not_affected, false_positive, suppressed, fixed,
}

-- The order of the ENUM, to compare two statuses.
abbrev pub ordinal : FindingStatus → ℕ
ordinal new = 0
ordinal analyzing = 1
ordinal exploitable = 2
ordinal not_affected = 3
ordinal false_positive = 4
ordinal suppressed = 5
ordinal fixed = 6

abbrev pub same_status : FindingStatus → FindingStatus → Bool
same_status a b = ordinal a == ordinal b

-- The string that the column and the request body hold.
unfoldable pub status_name : FindingStatus → String
status_name new = "new"
status_name analyzing = "analyzing"
status_name exploitable = "exploitable"
status_name not_affected = "not_affected"
status_name false_positive = "false_positive"
status_name suppressed = "suppressed"
status_name fixed = "fixed"

-- `ALL_STATUSES`
abbrev pub all_statuses : List FindingStatus
all_statuses =
    new ∷ analyzing ∷ exploitable ∷ not_affected ∷ false_positive ∷ suppressed ∷ fixed ∷ []

-- The member of `ALL_STATUSES` that a string spells.
unfoldable pub named : String → List FindingStatus → Option FindingStatus
unfolding status_name
named s [] = none
named s (t ∷ ts) = if str_eq s (status_name t) then some t else named s ts

unfoldable pub status_of_string : String → Option FindingStatus
unfolding named
status_of_string s = named s all_statuses

-- `_TERMINAL`
abbrev pub is_terminal : FindingStatus → Bool
is_terminal exploitable = true
is_terminal not_affected = true
is_terminal false_positive = true
is_terminal fixed = true
is_terminal suppressed = true
is_terminal _ = false

-- `STATUS_TRANSITIONS`, each set in the order that `sorted` gives it.
unfoldable pub status_transitions : FindingStatus → List FindingStatus
status_transitions new = analyzing ∷ suppressed ∷ []
status_transitions analyzing = exploitable ∷ false_positive ∷ fixed ∷ not_affected ∷ suppressed ∷ []
status_transitions exploitable = analyzing ∷ []
status_transitions not_affected = analyzing ∷ []
status_transitions false_positive = analyzing ∷ []
status_transitions fixed = analyzing ∷ []
status_transitions suppressed = analyzing ∷ []

-- `target_status in STATUS_REQUIRES_TEAM_ADMIN`
abbrev pub status_requires_team_admin : FindingStatus → Bool
status_requires_team_admin suppressed = true
status_requires_team_admin _ = false

unfoldable pub is_allowed : FindingStatus → FindingStatus → Bool
unfolding status_transitions
is_allowed current target = any (same_status target) (status_transitions current)
