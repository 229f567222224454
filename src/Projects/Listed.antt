-- ===== src/Projects/Listed.antt =====
-- The list of projects against its specification.
use trustedoss_portal.Prelude.{
  ℕ, String, Bool, true, not, ◌&&◌, ◌||◌, Option, none, some, List, [], is_some, ◌==◌,
  if◌then◌else◌, Uuid, Result, ok, guard, ◌>>=◌, ◌>>◌,
}
use trustedoss_portal.Model.{Project, Database}
use trustedoss_portal.Security.{CurrentUser, can_access_team}
use trustedoss_portal.Projects.{
  ProjectError, forbidden, ProjectFilter, searched, wanted, has_no_team, scoped_team_ids,
  project_page,
}

-- The filter of the list names this team, or none.
abbrev pub asked_for : Option Uuid → Project → Bool
asked_for none p = true
asked_for (some team_id) p = p.team_id == team_id

-- What a user may see of the projects under a filter.
abbrev pub visible :
    (String → String → Bool) → (String → String) → CurrentUser → ProjectFilter → Project → Bool
visible matches strip actor f p =
    can_access_team actor p.team_id
    && (asked_for f.team_id p
        && ((f.include_archived || not (is_some p.archived_at)) && searched matches strip f.q p))

abbrev pub may_ask : CurrentUser → Option Uuid → Bool
may_ask actor none = true
may_ask actor (some team_id) = can_access_team actor team_id

module _ (matches : String → String → Bool) (strip : String → String) (db : Database)
    (actor : CurrentUser) (f : ProjectFilter) (page size : ℕ) where
  -- The code and its specification, on a filter that names a team or none.
  abbrev answer : Option Uuid → Result ProjectError (List Project × ℕ)
  answer asked = do
    team_ids ← scoped_team_ids actor asked
    ok (
        if has_no_team actor asked
        then ([], 0)
        else project_page (wanted matches strip team_ids f) page size db.projects)

  abbrev pub specified : Option Uuid → Result ProjectError (List Project × ℕ)
  specified asked = do
    guard (may_ask actor asked) forbidden
    ok (project_page (visible matches strip actor f) page size db.projects)
