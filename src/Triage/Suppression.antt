-- ===== src/Triage/Suppression.antt =====
-- Suppression is an admin's decision, over every run of requests.
use trustedoss_portal.Prelude.{
  ◌≤◌, Bool, false, List, [], ◌∷◌, Uuid, Result, ok, err, count_if, bit, Bool-cases, arith, ◌≡◌,
  inl, inr, refl, ap,
}
use trustedoss_portal.Prelude.{All, count_if-set_row}
use trustedoss_portal.Model.{suppressed, VulnerabilityFinding, Database}
use trustedoss_portal.Security.{has_team_admin}
use trustedoss_portal.Triage.Status.{same_status}
use trustedoss_portal.Triage.{
  transitioned, StatusUpdate, TriageError, save_update, update_vulnerability_status, run_updates,
}
use trustedoss_portal.Triage.Workflow.{same_status-eq, assert_can_transition_iff}
use trustedoss_portal.Triage.Update.{finding_id_of, Outcome, update-Outcome}
use trustedoss_portal.Triage.Conflicts.{update-err}

abbrev pub is_suppressed : VulnerabilityFinding → Bool
is_suppressed f = same_status f.status suppressed

-- The request's actor is an admin of no team.
abbrev pub IsDeveloper : StatusUpdate → Type 0
IsDeveloper req = (team_id : Uuid) → has_team_admin req.actor team_id ≡ false

written_not_suppressed :
    {db : Database} {req : StatusUpdate} {before after : VulnerabilityFinding}
    → IsDeveloper req
    → Outcome db req before after
    → is_suppressed after ≡ false
unfolding transitioned
written_not_suppressed {db} {req} {before} {after} dev o =
    let (_, permitted) =
      (assert_can_transition_iff req.actor before.status o.checked.target req.target_status
          o.project.team_id).0
        o.checked.guarded in
    let st : after.status ≡ o.checked.target =
      ap (λ (f : VulnerabilityFinding). f.status) o.checked.written in
    rw st (elim (Bool-cases (same_status o.checked.target suppressed)) [
      | inl yes' ↦
          cc (dev o.project.team_id, permitted.1 (same_status-eq o.checked.target suppressed yes'))
      | inr no' ↦ no'
    ])

saved_count :
    (db : Database) (req : StatusUpdate) (before after : VulnerabilityFinding)
    → IsDeveloper req
    → Outcome db req before after
    → count_if is_suppressed (save_update db req (before, after)).vulnerability_findings
      ≤ count_if is_suppressed db.vulnerability_findings
unfolding save_update
saved_count db req before after dev o = omega (
  arith,
  count_if-set_row finding_id_of is_suppressed req.finding_id before after db.vulnerability_findings
      o.found,
  ap bit (written_not_suppressed dev o),
)

update-count :
    (db : Database) (req : StatusUpdate)
    → IsDeveloper req
    → count_if is_suppressed (update_vulnerability_status db req).1.vulnerability_findings
      ≤ count_if is_suppressed db.vulnerability_findings
update-count db req dev = split (update_vulnerability_status db req).0 refl
  where
    split :
        (r : Result TriageError (VulnerabilityFinding × VulnerabilityFinding))
        → (update_vulnerability_status db req).0 ≡ r
        → count_if is_suppressed (update_vulnerability_status db req).1.vulnerability_findings
          ≤ count_if is_suppressed db.vulnerability_findings
    split (ok (before, after)) e =
        let o = update-Outcome db req before after e in
        rw o.saved (saved_count db req before after dev o)
    split (err x) e = rw (update-err db req x e) (omega arith)

-- No run of requests by users who are admins of no team suppresses a finding: the number of
-- suppressed findings after the run is at most what it was before.
pub developers_never_suppress :
    (db : Database) (reqs : List StatusUpdate)
    → All IsDeveloper reqs
    → count_if is_suppressed (run_updates db reqs).vulnerability_findings
      ≤ count_if is_suppressed db.vulnerability_findings
unfolding run_updates
developers_never_suppress db [] h = omega arith
developers_never_suppress db (req ∷ reqs) h = omega (
  arith,
  update-count db req h.0,
  developers_never_suppress (update_vulnerability_status db req).1 reqs h.1,
)
