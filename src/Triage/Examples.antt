-- ===== src/Triage/Examples.antt =====
-- The theorems on triage at concrete requests.
use trustedoss_portal.Prelude.{
  ◌≤◌, ◌++◌, true, false, none, some, [], ◌∷◌, Uuid, ok, err, find, order_by, arith, count_if, ◌≡◌,
  ◌↔◌, refl,
}
use trustedoss_portal.Model.{
  new, analyzing, exploitable, not_affected, pending, ScanStatus, VulnerabilityFinding, Database,
}
use trustedoss_portal.Security.{
  CurrentUser, can_access_team, assert_team_access, has_team_admin, is_super, role_in_team,
  dict_get,
}
use trustedoss_portal.Samples.{alice, bob, store, finding_row, project_a}
use trustedoss_portal.Triage.Status.{status_name, status_of_string, is_allowed}
use trustedoss_portal.Triage.{
  conflict, assert_can_transition, StatusUpdate, transitioned, check_loaded, check_update,
  update_vulnerability_status, load_finding_with_project, project_of, run_updates,
}
use trustedoss_portal.Triage.Workflow.{Permitted, assert_can_transition_iff}
use trustedoss_portal.Triage.Update.{finding_id_of, update-writes}
use trustedoss_portal.Triage.Conflicts.{stale_update_conflicts}
use trustedoss_portal.Triage.History.{load_status_history}
use trustedoss_portal.Triage.History.Tracked.{entry_after, load_status_history-update}
use trustedoss_portal.Triage.History.Runs.{IsTracked, run_updates-IsTracked}
use trustedoss_portal.Triage.Suppression.{is_suppressed, developers_never_suppress}

abbrev db : Database
db = store analyzing pending ScanStatus.failed

abbrev clear : CurrentUser → StatusUpdate
clear actor = record {
  finding_id = 51;
  actor = actor;
  target_status = "not_affected";
  justification = some "not reachable";
  if_match = some 5;
  now = 9;
  started_at = 8;
  audit_id = 131;
}

abbrev cleared : VulnerabilityFinding
cleared = record (finding_row analyzing) {
  status = not_affected;
  analysis_state = some not_affected;
  analysis_justification = some "not reachable";
  analyst_user_id = some 12;
  analyzed_at = some 9;
  updated_at = 9;
}

clear-ok : (update_vulnerability_status db (clear bob)).0 ≡ ok (finding_row analyzing, cleared)
unfolding update_vulnerability_status check_update check_loaded load_finding_with_project
    assert_team_access assert_can_transition status_of_string transitioned
clear-ok = refl

update-writes_example :
    (status_name not_affected ≡ (clear bob).target_status)
    × (cleared.analysis_state ≡ some not_affected)
    × (cleared.analyst_user_id ≡ some 12)
    × (cleared.updated_at ≡ 9)
    × (is_allowed analyzing not_affected ≡ true)
    × (find finding_id_of 51 (update_vulnerability_status db (clear bob)).1.vulnerability_findings
        ≡ some cleared)
update-writes_example = update-writes db (clear bob) (finding_row analyzing) cleared 51 clear-ok

assert_can_transition_iff_example :
    (assert_can_transition alice analyzing "exploitable" 1 ≡ ok exploitable)
    ↔ (("exploitable" ≡ status_name exploitable) × Permitted alice analyzing 1 exploitable)
assert_can_transition_iff_example =
    assert_can_transition_iff alice analyzing exploitable "exploitable" 1

stale_update_conflicts_example :
    update_vulnerability_status (update_vulnerability_status db (clear bob)).1 (clear alice)
    ≡ (err conflict, (update_vulnerability_status db (clear bob)).1)
stale_update_conflicts_example =
    stale_update_conflicts db (clear bob) (clear alice) (finding_row analyzing) cleared project_a
      clear-ok (unfold project_of in refl) refl refl refl (unfold can_access_team is_super in refl)

bob_never : (team_id : Uuid) → has_team_admin bob team_id ≡ false
unfolding has_team_admin role_in_team is_super dict_get
bob_never team_id = ground arith

developers_never_suppress_example :
    count_if is_suppressed (run_updates db (clear bob ∷ clear bob ∷ [])).vulnerability_findings
    ≤ count_if is_suppressed db.vulnerability_findings
developers_never_suppress_example =
    developers_never_suppress db (clear bob ∷ clear bob ∷ []) (bob_never, (bob_never, tt))

load_status_history-update_example :
    load_status_history (update_vulnerability_status db (clear bob)).1 51
    ≡ load_status_history db 51 ++ entry_after (clear bob) cleared (load_status_history db 51) ∷ []
load_status_history-update_example =
    load_status_history-update db (clear bob) (finding_row analyzing) cleared 51 clear-ok tt

-- A finding that nobody has touched yet, and two requests for it.
abbrev untouched : Database
untouched = store new pending ScanStatus.failed

abbrev look : StatusUpdate
look = record (clear bob) {
  target_status = "analyzing";
  justification = none;
  now = 8;
  started_at = 7;
}

untouched-IsTracked : IsTracked 51 untouched
unfolding load_status_history order_by status_name
untouched-IsTracked = record { row = finding_row new; found = refl; current = refl }

run_updates-IsTracked_example : IsTracked 51 (run_updates untouched (look ∷ clear alice ∷ []))
run_updates-IsTracked_example =
    run_updates-IsTracked 51 untouched (look ∷ clear alice ∷ []) 6 tt
      (omega arith, (omega arith, tt)) untouched-IsTracked
