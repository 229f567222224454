-- ===== src/Triage/Conflicts.antt =====
-- Two updates of one finding, and an update that is refused.
use trustedoss_portal.Prelude.{
  true, false, some, ◌==◌, ==_refl, ok, err, commit-eq-err, ◌≡◌, refl, ap,
}
use trustedoss_portal.Model.{Project, VulnerabilityFinding, Database}
use trustedoss_portal.Security.{can_access_team, assert_team_access}
use trustedoss_portal.Triage.{
  TriageError, conflict, if_match_ok, StatusUpdate, load_finding_with_project, project_of,
  transitioned, check_loaded, check_update, save_update, update_vulnerability_status,
}
use trustedoss_portal.Triage.Update.{
  Outcome, update-Outcome, update-writes, find-load, find-save_update, written_id,
}

scan_id-written :
    {db : Database} {req : StatusUpdate} {before after : VulnerabilityFinding}
    → Outcome db req before after
    → after.scan_id ≡ before.scan_id
unfolding transitioned
scan_id-written o = ap (λ (f : VulnerabilityFinding). f.scan_id) o.checked.written

-- The saved row still belongs to the project.
pub load-save_update :
    {db : Database} {req : StatusUpdate} {before after : VulnerabilityFinding}
    → (o : Outcome db req before after)
    → load_finding_with_project (save_update db req (before, after)) req.finding_id
      ≡ some (after, o.project)
load-save_update {db} {req} {before} {after} o =
    let here = find-save_update db req before after req.finding_id o.found (written_id o) in
    find-load (save_update db req (before, after)) req.finding_id after o.project
      (rw (==_refl req.finding_id) at here)
      (unfold project_of save_update in rw (scan_id-written o) o.joins)

check_loaded-stale :
    (req : StatusUpdate) (f : VulnerabilityFinding) (p : Project)
    → can_access_team req.actor p.team_id ≡ true
    → if_match_ok req.if_match f.updated_at ≡ false
    → check_loaded req f p ≡ err conflict
unfolding check_loaded assert_team_access
check_loaded-stale req f p access moved = rw access (rw moved refl)

check_update-err :
    (db : Database) (req : StatusUpdate) (f : VulnerabilityFinding) (p : Project) (e : TriageError)
    → load_finding_with_project db req.finding_id ≡ some (f, p)
    → check_loaded req f p ≡ err e
    → update_vulnerability_status db req ≡ (err e, db)
unfolding update_vulnerability_status check_update
check_update-err db req f p e loaded failed = rw loaded (rw failed refl)

-- Of two updates made from the same snapshot of a finding only the first is written: once an
-- update has succeeded at another moment than the snapshot's, a second request of a user with
-- access to the project that echoes the snapshot's updated_at is refused with a conflict and
-- leaves the store as it is.
pub stale_update_conflicts :
    (db : Database) (first second : StatusUpdate) (before after : VulnerabilityFinding)
    (project : Project)
    → (update_vulnerability_status db first).0 ≡ ok (before, after)
    → project_of db before ≡ some project
    → (first.now == before.updated_at) ≡ false
    → second.finding_id ≡ first.finding_id
    → second.if_match ≡ some before.updated_at
    → can_access_team second.actor project.team_id ≡ true
    → update_vulnerability_status (update_vulnerability_status db first).1 second
      ≡ (err conflict, (update_vulnerability_status db first).1)
stale_update_conflicts db first second before after project h joins moved same echoed access =
    let o = update-Outcome db first before after h in
    let e : o.project ≡ project = cc (o.joins, joins) in
    let at : after.updated_at ≡ first.now = (update-writes db first before after 0 h).3 in
    rw o.saved (
      check_update-err (save_update db first (before, after)) second after o.project conflict
        (rw same (load-save_update o))
        (check_loaded-stale second after o.project (rw e access) (rw (echoed, at) moved)))

-- A refused update leaves the store as it is.
pub update-err :
    (db : Database) (req : StatusUpdate) (e : TriageError)
    → (update_vulnerability_status db req).0 ≡ err e
    → (update_vulnerability_status db req).1 ≡ db
unfolding update_vulnerability_status
update-err db req e h = commit-eq-err (check_update db req) (save_update db req) db h
