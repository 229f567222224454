-- ===== src/AdminTeams/Examples.antt =====
-- The theorems on team members at concrete requests.
use trustedoss_portal.Prelude.{◌≡◌, refl, [], ◌∷◌, select, arith}
use trustedoss_portal.Model.{Role, new, pending, ScanStatus, Database}
use trustedoss_portal.Samples.{membership_row, project_a, scan_row, store}
use trustedoss_portal.AdminTeams.{MemberAdd, add_team_member}
use trustedoss_portal.AdminTeams.Teams.{delete_team}
use trustedoss_portal.AdminTeams.Teams.Deleted.{IsReferential, shown_live, delete_team-live}
use trustedoss_portal.AdminTeams.Managed.{IsKeyed}
use trustedoss_portal.AdminTeams.Added.{IsLed, add_team_member-IsLed}

-- User 12 develops in team 1 and user 14 is its only admin.
abbrev db : Database
db = record (store new pending ScanStatus.failed) {
  memberships =
      membership_row 101 12 1 Role.developer ∷ membership_row 102 14 1 Role.team_admin ∷ [];
}

db-IsKeyed : IsKeyed db.memberships
db-IsKeyed = record { at = λ k. ground arith }

abbrev demote : MemberAdd
demote = record { team_id = 1; user_id = 14; role = Role.developer; now = 9; fresh_id = 103 }

add_team_member-IsLed_example : IsLed 1 (add_team_member db db demote).1.memberships
add_team_member-IsLed_example = add_team_member-IsLed db demote db-IsKeyed (omega arith)

-- Team 1 may go, since its scan has failed; the scan of team 2 keeps running.
abbrev two_teams : Database
two_teams = record db {
  projects = project_a ∷ record project_a { id = 22; team_id = 2 } ∷ [];
  scans =
      scan_row 32 ScanStatus.failed
      ∷ record (scan_row 33 ScanStatus.running) { project_id = 22 }
      ∷ scan_row 31 ScanStatus.succeeded
      ∷ [];
}

two_teams-IsReferential : IsReferential two_teams
two_teams-IsReferential = record {
  memberships = (refl, (refl, tt));
  projects = (refl, (refl, tt));
  scans = (refl, (refl, (refl, tt)));
  findings = (refl, tt);
  licenses = (refl, tt);
}

delete_team-live_example :
    (select (shown_live two_teams.scans) (delete_team two_teams.scans two_teams 1).1.scans
      ≡ select (shown_live two_teams.scans) two_teams.scans)
    × IsReferential (delete_team two_teams.scans two_teams 1).1
delete_team-live_example = delete_team-live two_teams.scans two_teams 1 two_teams-IsReferential
