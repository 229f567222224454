-- ===== src/Triage/Workflow.antt =====
-- The transition table and the guard against the workflow that the module's text describes.
use trustedoss_portal.Prelude.{
  String, Bool, true, false, not, ◌||◌, some, List, [], ◌∷◌, Uuid, ok, Bool-cases, arith, ◌≡◌, ◌↔◌,
  inl, inr, refl, sym, ap, ◌∙◌,
}
use trustedoss_portal.Prelude.{str_eq, eq_iff}
use trustedoss_portal.Model.{
  FindingStatus, new, analyzing, exploitable, not_affected, false_positive, suppressed, fixed,
}
use trustedoss_portal.Security.{CurrentUser, has_team_admin}
use trustedoss_portal.Triage.Status.{
  same_status, all_statuses, status_name, named, status_of_string, status_requires_team_admin,
  is_allowed,
}
use trustedoss_portal.Triage.{can_transition, assert_can_transition}

-- The workflow in words: `new` is the inbox, `analyzing` the working state from which each of the five
-- others is decided, and those reopen through `analyzing`.
abbrev pub workflow : FindingStatus → FindingStatus → Bool
workflow new t = same_status t analyzing || same_status t suppressed
workflow analyzing t = not (same_status t new || same_status t analyzing)
workflow _ t = same_status t analyzing

-- The transition table is the workflow: `new` goes to `analyzing` or `suppressed`, `analyzing` to
-- each terminal status, a terminal status back to `analyzing`, and nothing else is allowed.
pub is_allowed-workflow : (s t : FindingStatus) → is_allowed s t ≡ workflow s t
unfolding is_allowed
is_allowed-workflow s t = ground arith

pub same_status-eq : (s t : FindingStatus) → same_status s t ≡ true → s ≡ t
same_status-eq s t h = ground arith

named_sound :
    (x : String) (t : FindingStatus) (ts : List FindingStatus)
    → named x ts ≡ some t
    → x ≡ status_name t
unfolding named
named_sound x t [] h = absurd (ground arith)
named_sound x t (u ∷ ts) h = elim (Bool-cases (str_eq x (status_name u))) [
  | inl here ↦ (eq_iff x (status_name u)).0 here ∙ ap status_name (ground (arith, here))
  | inr more ↦ named_sound x t ts (ground (arith, more))
]

pub status_of_string_sound :
    (x : String) (t : FindingStatus) → status_of_string x ≡ some t → x ≡ status_name t
unfolding status_of_string
status_of_string_sound x t h = named_sound x t all_statuses h

-- A status is read back from its own name.
pub status_of_string-status_name : (t : FindingStatus) → status_of_string (status_name t) ≡ some t
unfolding status_of_string
status_of_string-status_name new = refl
status_of_string-status_name analyzing = refl
status_of_string-status_name exploitable = refl
status_of_string-status_name not_affected = refl
status_of_string-status_name false_positive = refl
status_of_string-status_name suppressed = refl
status_of_string-status_name fixed = refl

-- What the guard lets through, once the string is known, in the terms of the code.
abbrev Guarded : CurrentUser → FindingStatus → Uuid → FindingStatus → Type 0
Guarded actor current team_id target =
    (is_allowed current target ≡ true)
    × (status_requires_team_admin target ≡ true → has_team_admin actor team_id ≡ true)

-- The same in the terms of the workflow: a step of it, and an admin's decision if it suppresses.
abbrev pub Permitted : CurrentUser → FindingStatus → Uuid → FindingStatus → Type 0
Permitted actor current team_id target =
    (workflow current target ≡ true) × (target ≡ suppressed → has_team_admin actor team_id ≡ true)

requires_suppressed : (t : FindingStatus) → status_requires_team_admin t ≡ true → t ≡ suppressed
requires_suppressed t h = ground arith

Guarded-Permitted :
    (actor : CurrentUser) (current : FindingStatus) (team_id : Uuid) (target : FindingStatus)
    → Guarded actor current team_id target
    → Permitted actor current team_id target
Guarded-Permitted actor current team_id target g = (
  sym (is_allowed-workflow current target) ∙ g.0,
  λ e. g.1 (ap (λ t. status_requires_team_admin t) e),
)

Permitted-Guarded :
    (actor : CurrentUser) (current : FindingStatus) (team_id : Uuid) (target : FindingStatus)
    → Permitted actor current team_id target
    → Guarded actor current team_id target
Permitted-Guarded actor current team_id target p =
    (is_allowed-workflow current target ∙ p.0, λ h. p.1 (requires_suppressed target h))

can_transition-Guarded :
    (actor : CurrentUser) (current : FindingStatus) (team_id : Uuid) (target u : FindingStatus)
    → can_transition actor current team_id target ≡ ok u
    → (u ≡ target) × Guarded actor current team_id target
unfolding can_transition
can_transition-Guarded actor current team_id target u h = ground arith

not_same_of_allowed : (s t : FindingStatus) → is_allowed s t ≡ true → same_status t s ≡ false
unfolding is_allowed
not_same_of_allowed s t h = ground arith

Guarded-can_transition :
    (actor : CurrentUser) (current : FindingStatus) (team_id : Uuid) (target : FindingStatus)
    → Guarded actor current team_id target
    → can_transition actor current team_id target ≡ ok target
unfolding can_transition
Guarded-can_transition actor current team_id target h =
    ground (arith, not_same_of_allowed current target)

guard_cases :
    (actor : CurrentUser) (current target : FindingStatus) (x : String) (team_id : Uuid)
    → assert_can_transition actor current x team_id ≡ ok target
    → (u : FindingStatus) × (status_of_string x ≡ some u)
      × (can_transition actor current team_id u ≡ ok target)
unfolding assert_can_transition
guard_cases actor current target x team_id h = ground arith

guard_sound :
    (actor : CurrentUser) (current target : FindingStatus) (x : String) (team_id : Uuid)
    → assert_can_transition actor current x team_id ≡ ok target
    → (x ≡ status_name target) × Guarded actor current team_id target
guard_sound actor current target x team_id h =
    let (u, known, passed) = guard_cases actor current target x team_id h in
    let (same, permitted) = can_transition-Guarded actor current team_id u target passed in
    (status_of_string_sound x u known ∙ ap status_name (sym same), rw same permitted)

guard_complete :
    (actor : CurrentUser) (current target : FindingStatus) (team_id : Uuid)
    → Guarded actor current team_id target
    → assert_can_transition actor current (status_name target) team_id ≡ ok target
unfolding assert_can_transition
guard_complete actor current target team_id p =
    rw (status_of_string-status_name target) (Guarded-can_transition actor current team_id target p)

-- The guard accepts a target string exactly when it spells a status that the workflow reaches in one step
-- from the current one (`new` to `analyzing` or `suppressed`, `analyzing` to each of the other five, each
-- of those back to `analyzing`) and, if that status is `suppressed`, the actor is an admin of the
-- project's team.
pub assert_can_transition_iff :
    (actor : CurrentUser) (current target : FindingStatus) (x : String) (team_id : Uuid)
    → (assert_can_transition actor current x team_id ≡ ok target)
      ↔ ((x ≡ status_name target) × Permitted actor current team_id target)
assert_can_transition_iff actor current target x team_id = (
  λ h.
      let (same, g) = guard_sound actor current target x team_id h in
      (same, Guarded-Permitted actor current team_id target g),
  λ p. rw p.0 (
      guard_complete actor current target team_id
        (Permitted-Guarded actor current team_id target p.1)),
)
