-- ===== src/Triage/Update.antt =====
-- What one status update does to the store.
use trustedoss_portal.Prelude.{
  String, true, Option, some, ◌==◌, ==_iff, if◌then◌else◌, Uuid, ok, guard, >>=-eq-ok,
  require-eq-ok, guard-eq-ok, commit-eq-ok, require, Bool-cases, arith, ◌≡◌, inl, inr, refl, sym,
  ap, ◌∙◌,
}
use mathlib.Core.Path.{subst₂}
use trustedoss_portal.Prelude.{Timestamp, find, find-set_row_self, find-set_row_ne, key-find}
use trustedoss_portal.Model.{FindingStatus, Project, VulnerabilityFinding, Database}
use trustedoss_portal.Security.{can_access_team, assert_team_access}
use trustedoss_portal.Triage.Status.{status_name, is_allowed}
use trustedoss_portal.Triage.{
  finding_not_found, conflict, if_match_ok, assert_can_transition, StatusUpdate,
  load_finding_with_project, project_of, joined, transitioned, check_loaded, check_update,
  save_update, update_vulnerability_status,
}
use trustedoss_portal.Triage.Workflow.{is_allowed-workflow, assert_can_transition_iff}

abbrev pub finding_id_of : VulnerabilityFinding → Uuid
finding_id_of f = f.id

-- The facts behind a successful update.
pub record Accepted (req : StatusUpdate) (project : Project) (before after : VulnerabilityFinding)
    : Type 0 where
  pub target : FindingStatus
  pub access : can_access_team req.actor project.team_id ≡ true
  pub unmoved : if_match_ok req.if_match before.updated_at ≡ true
  pub guarded :
      assert_can_transition req.actor before.status req.target_status project.team_id ≡ ok target
  pub written : after ≡ transitioned before target req.justification req.actor.id req.now

check_loaded-Accepted :
    (req : StatusUpdate) (project : Project) (before after : VulnerabilityFinding)
    → check_loaded req before project ≡ ok after
    → Accepted req project before after
unfolding check_loaded assert_team_access
check_loaded-Accepted req project before after h =
    let (_, access, h2) =
      >>=-eq-ok (assert_team_access req.actor project.team_id finding_not_found) _ h in
    let (_, unmoved, h3) =
      >>=-eq-ok (guard (if_match_ok req.if_match before.updated_at) conflict) _ h2 in
    let (target, guarded, h4) =
      >>=-eq-ok (assert_can_transition req.actor before.status req.target_status project.team_id) _
        h3 in
    record {
      target = target;
      access = guard-eq-ok (can_access_team req.actor project.team_id) finding_not_found access;
      unmoved = guard-eq-ok (if_match_ok req.if_match before.updated_at) conflict unmoved;
      guarded = guarded;
      written = cc h4;
    }

-- A successful update loaded the old row, and its checks gave the new one.
pub check_update-eq-ok :
    (db : Database) (req : StatusUpdate) (before after : VulnerabilityFinding)
    → check_update db req ≡ ok (before, after)
    → (project : Project) × (load_finding_with_project db req.finding_id ≡ some (before, project))
      × (check_loaded req before project ≡ ok after)
unfolding check_update
check_update-eq-ok db req before after h =
    let (loaded, found, h1) =
      >>=-eq-ok (require (load_finding_with_project db req.finding_id) finding_not_found) _ h in
    let (row, checked, h2) = >>=-eq-ok (check_loaded req loaded.0 loaded.1) _ h1 in
    subst₂
      (λ b a.
        (project : Project) × (load_finding_with_project db req.finding_id ≡ some (b, project))
        × (check_loaded req b project ≡ ok a))
      (cc h2) (cc h2)
      (
        loaded.1,
        require-eq-ok (load_finding_with_project db req.finding_id) finding_not_found found,
        checked,
      )

-- The row that is loaded is the row of the table, with the project of its scan.
pub load-find :
    (db : Database) (id : Uuid) (f : VulnerabilityFinding) (p : Project)
    → load_finding_with_project db id ≡ some (f, p)
    → (find finding_id_of id db.vulnerability_findings ≡ some f) × (project_of db f ≡ some p)
unfolding load_finding_with_project joined
load-find db id f p h = ground arith

pub find-load :
    (db : Database) (id : Uuid) (f : VulnerabilityFinding) (p : Project)
    → find finding_id_of id db.vulnerability_findings ≡ some f
    → project_of db f ≡ some p
    → load_finding_with_project db id ≡ some (f, p)
unfolding load_finding_with_project joined
find-load db id f p h e = ground arith

-- The parts of a successful update, with the row that is written spelled out.
pub record Outcome (db : Database) (req : StatusUpdate) (before after : VulnerabilityFinding)
    : Type 0 where
  pub project : Project
  pub checked : Accepted req project before after
  pub found : find finding_id_of req.finding_id db.vulnerability_findings ≡ some before
  pub joins : project_of db before ≡ some project
  pub saved : (update_vulnerability_status db req).1 ≡ save_update db req (before, after)

pub update-Outcome :
    (db : Database) (req : StatusUpdate) (before after : VulnerabilityFinding)
    → (update_vulnerability_status db req).0 ≡ ok (before, after)
    → Outcome db req before after
unfolding update_vulnerability_status
update-Outcome db req before after h =
    let (passed, saved) = commit-eq-ok (check_update db req) (save_update db req) db h in
    let (project, loaded, checked) = check_update-eq-ok db req before after passed in
    let (found, joins) = load-find db req.finding_id before project loaded in
    record {
      project = project;
      checked = check_loaded-Accepted req project before after checked;
      found = found;
      joins = joins;
      saved = saved;
    }

id-transitioned :
    (f : VulnerabilityFinding) (t : FindingStatus) (j : Option String) (a : Uuid) (now : Timestamp)
    → (transitioned f t j a now).id ≡ f.id
unfolding transitioned
id-transitioned f t j a now = refl

-- The saved table at every key.
pub find-save_update :
    (db : Database) (req : StatusUpdate) (before after : VulnerabilityFinding) (j : Uuid)
    → find finding_id_of req.finding_id db.vulnerability_findings ≡ some before
    → after.id ≡ req.finding_id
    → find finding_id_of j (save_update db req (before, after)).vulnerability_findings
      ≡ (if req.finding_id == j then some after else find finding_id_of j db.vulnerability_findings)
unfolding save_update
find-save_update db req before after j found e = elim (Bool-cases (req.finding_id == j)) [
  | inl here ↦ rw here (
      rw (← (==_iff req.finding_id j).0 here) (
        find-set_row_self finding_id_of req.finding_id before after db.vulnerability_findings found
          e))
  | inr other ↦
      rw other
        (find-set_row_ne finding_id_of req.finding_id j after db.vulnerability_findings e other)
]

pub written_id :
    {db : Database} {req : StatusUpdate} {before after : VulnerabilityFinding}
    → Outcome db req before after
    → after.id ≡ req.finding_id
unfolding transitioned
written_id {db} {req} {before} {after} o =
    ap (λ (f : VulnerabilityFinding). f.id) o.checked.written
    ∙ key-find finding_id_of req.finding_id db.vulnerability_findings before o.found

-- A successful update writes exactly the row that it names: that row has the requested status,
-- mirrored in analysis_state, with the actor and the moment of the update; the table allows the
-- move, and every other row is as before.
pub update-writes :
    (db : Database) (req : StatusUpdate) (before after : VulnerabilityFinding) (j : Uuid)
    → (update_vulnerability_status db req).0 ≡ ok (before, after)
    → (status_name after.status ≡ req.target_status)
      × (after.analysis_state ≡ some after.status)
      × (after.analyst_user_id ≡ some req.actor.id)
      × (after.updated_at ≡ req.now)
      × (is_allowed before.status after.status ≡ true)
      × (find finding_id_of j (update_vulnerability_status db req).1.vulnerability_findings ≡ (
          if req.finding_id == j
          then some after
          else find finding_id_of j db.vulnerability_findings))
unfolding transitioned
update-writes db req before after j h =
    let o = update-Outcome db req before after h in
    let w = o.checked.written in
    let (spelled, permitted) =
      (assert_can_transition_iff req.actor before.status o.checked.target req.target_status
          o.project.team_id).0
        o.checked.guarded in
    let st : after.status ≡ o.checked.target = ap (λ (f : VulnerabilityFinding). f.status) w in
    (
      ap status_name st ∙ sym spelled,
      ap (λ (f : VulnerabilityFinding). f.analysis_state) w ∙ ap some (sym st),
      ap (λ (f : VulnerabilityFinding). f.analyst_user_id) w,
      ap (λ (f : VulnerabilityFinding). f.updated_at) w,
      ap (is_allowed before.status) st
          ∙ (is_allowed-workflow before.status o.checked.target ∙ permitted.0),
      rw o.saved (find-save_update db req before after j o.found (written_id o)),
    )
