-- ===== src/Scans/Reads.antt =====
-- What a user can read of the scans.
use trustedoss_portal.Prelude.{
  ℕ, ◌≤◌, true, Option, some, All, length, select, order_by, clamp_size, All-select, All-order_by,
  All-page_of, length-page_of, Option-cases, find, arith, inl, inr, ◌≡◌,
}
use trustedoss_portal.Security.{CurrentUser, can_access_team}
use trustedoss_portal.Model.{ScanStatus, Project, Scan, Database}
use trustedoss_portal.Scans.Rows.{project_id_of}
use trustedoss_portal.Scans.{list_scans_for_actor, visible_scan, recent_first}

-- The scan's project is there and its team is open to the actor.
pub record Readable (db : Database) (actor : CurrentUser) (s : Scan) : Type 0 where
  pub project : Project
  pub found : find project_id_of s.project_id db.projects ≡ some project
  pub access : can_access_team actor project.team_id ≡ true

visible_access :
    (db : Database) (actor : CurrentUser) (wanted : Option ScanStatus) (s : Scan)
    → visible_scan db actor wanted s ≡ true
    → Readable db actor s
unfolding can_access_team
visible_access db actor wanted s h =
    elim (Option-cases (find project_id_of s.project_id db.projects)) [
      | inl missing ↦ absurd (ground (arith, missing))
      | inr (project, found) ↦ record {
        project = project;
        found = found;
        access = ground (arith, found);
      }
    ]

-- A page of the list across projects holds at most 100 scans, each in a project whose team the
-- actor can access, whatever the filter and the page.
pub list_scans_for_actor-tenancy :
    (db : Database) (actor : CurrentUser) (wanted : Option ScanStatus) (page size : ℕ)
    → All (Readable db actor) (list_scans_for_actor db actor wanted page size).0
      × (length (list_scans_for_actor db actor wanted page size).0 ≤ 100)
unfolding list_scans_for_actor
list_scans_for_actor-tenancy db actor wanted page size = (
  All-page_of _ page (clamp_size size 100) _ (
      All-order_by recent_first _ _
        (All-select _ (visible_scan db actor wanted) db.scans (visible_access db actor wanted))),
  omega (
    arith,
    length-page_of page (clamp_size size 100)
        (order_by recent_first (select (visible_scan db actor wanted) db.scans)),
  ),
)
