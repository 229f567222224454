-- ===== src/Projects/Examples.antt =====
-- The theorems on projects at concrete requests.
use trustedoss_portal.Prelude.{
  ◌≡◌, refl, String, true, false, ◌||◌, none, some, List, [], ◌∷◌, ok, err, any, find, codes, arith,
  unset, sent,
}
use trustedoss_portal.Model.{
  Role, new, pending, ScanStatus, ProjectVisibility, Membership, Project, Database,
}
use trustedoss_portal.Security.{
  CurrentUser, current_user_of, role_priority, is_super, can_access_team, assert_team_access,
  dict_get,
}
use trustedoss_portal.Security.Isolation.{admin_of}
use trustedoss_portal.Scans.Rows.{project_id_of}
use trustedoss_portal.Samples.{alice, bob, store, project_a, user_row, membership_row}
use trustedoss_portal.Projects.{
  slug_conflict, ProjectCreate, new_project, check_create, create_project, ProjectFilter,
  get_project, ProjectUpdate, can_write_project, check_write, update_project, create, archive, run,
}
use trustedoss_portal.Projects.Writes.{create_project-get}
use trustedoss_portal.Projects.Slugs.{IsUniqueSlug, run-IsUniqueSlug}
use trustedoss_portal.Projects.Roles.{team_of, update_project-writer}

abbrev db : Database
db = store new pending ScanStatus.failed

abbrev everything : ProjectFilter
everything = record { team_id = some 1; include_archived = true; q = some "portal" }

abbrev as_typed : String → String
as_typed s = s

abbrev scanner : CurrentUser → ProjectCreate
scanner actor = record {
  actor = actor;
  team_id = 1;
  name = "Scanner";
  slug = "scanner";
  description = none;
  git_url = some (codes "https://example.com/scanner.git");
  default_branch = none;
  visibility = ProjectVisibility.team;
  fresh_id = 22;
  now = 5;
}

create-ok : (create_project db (scanner bob)).0 ≡ ok (new_project (scanner bob))
unfolding create_project check_create assert_team_access can_access_team is_super
create-ok = refl

create_project-get_example :
    (can_access_team bob 1 ≡ true)
    × (get_project (create_project db (scanner bob)).1 alice 22 ≡ ok (new_project (scanner bob)))
    × (create_project (create_project db (scanner bob)).1 (record (scanner alice) { fresh_id = 23 })
        ≡ (err slug_conflict, (create_project db (scanner bob)).1))
create_project-get_example =
    create_project-get db (scanner bob) (record (scanner alice) { fresh_id = 23 })
      (new_project (scanner bob)) create-ok refl refl (unfold can_access_team is_super in refl)

db-IsUniqueSlug : IsUniqueSlug db
db-IsUniqueSlug = record { at = λ team_id slug. ground arith }

run-IsUniqueSlug_example :
    IsUniqueSlug (run db (create (scanner bob) ∷ create (scanner alice) ∷ archive alice 22 9 ∷ []))
run-IsUniqueSlug_example =
    run-IsUniqueSlug db (create (scanner bob) ∷ create (scanner alice) ∷ archive alice 22 9 ∷ [])
      db-IsUniqueSlug

-- A user who leads team 1 and only belongs to team 2.
abbrev rows : List Membership
rows = membership_row 101 11 1 Role.team_admin ∷ membership_row 102 11 2 Role.developer ∷ []

abbrev lead : CurrentUser
lead = current_user_of (user_row 11 true false) rows

abbrev rename : ProjectUpdate
rename = record {
  actor = lead;
  project_id = 21;
  name = sent (some "Portal");
  description = sent none;
  git_url = unset;
  default_branch = unset;
  visibility = unset;
  now = 8;
}

abbrev renamed : Project
renamed = record project_a { name = "Portal"; updated_at = 8 }

rename-ok : (update_project db rename).0 ≡ ok renamed
unfolding update_project check_write can_write_project is_super dict_get current_user_of
    role_priority
rename-ok = refl

update_project-writer_example :
    ((is_super lead || any (admin_of 1) rows) ≡ true)
    × (team_of (find project_id_of 21 db.projects) ≡ some 1)
    × (find project_id_of 22 (update_project db rename).1.projects ≡ none)
update_project-writer_example =
    update_project-writer db rename (user_row 11 true false) rows renamed 22 refl (omega arith)
      rename-ok refl
