-- ===== src/PolicyGate/TriageEffect.antt =====
-- How a triage decision moves the gate of the scan's project.
use trustedoss_portal.Prelude.{◌+◌, true, Option, none, some, Uuid, ok, bit, arith, ◌≡◌, refl, ap}
use trustedoss_portal.Prelude.{Timestamp, count_if-set_row}
use trustedoss_portal.Model.{Scan, FindingStatus, suppressed, VulnerabilityFinding, Database}
use trustedoss_portal.Triage.Status.{is_allowed}
use trustedoss_portal.Triage.{StatusUpdate, transitioned, save_update, update_vulnerability_status}
use trustedoss_portal.Triage.Update.{finding_id_of, Outcome, update-Outcome, update-writes}
use trustedoss_portal.PolicyGate.{
  is_closed, open_critical, count_open_critical_cves, count_forbidden_license_components,
  latest_succeeded_scan, gate_of_scan, evaluate_gate,
}

-- A triage decision changes the number of open critical findings of a scan by exactly the finding
-- that it moves: one less if that finding was open and critical there and is now closed, one more
-- the other way round, and nothing else.
pub count_open_critical-update :
    (db : Database) (req : StatusUpdate) (before after : VulnerabilityFinding) (scan_id : Uuid)
    → (update_vulnerability_status db req).0 ≡ ok (before, after)
    → count_open_critical_cves (update_vulnerability_status db req).1 scan_id
        + bit (open_critical db.vulnerabilities scan_id before)
      ≡ count_open_critical_cves db scan_id + bit (open_critical db.vulnerabilities scan_id after)
count_open_critical-update db req before after scan_id h =
    let o = update-Outcome db req before after h in
    rw o.saved (
      unfold count_open_critical_cves save_update in
      count_if-set_row finding_id_of (open_critical db.vulnerabilities scan_id) req.finding_id
        before after db.vulnerability_findings o.found)

from_open :
    (s t : FindingStatus) → is_allowed s t ≡ true → t ≡ suppressed → is_closed s ≡ is_closed t
unfolding is_allowed
from_open s t e h = ground arith

same_join :
    {db : Database} {req : StatusUpdate} {before after : VulnerabilityFinding}
    → Outcome db req before after
    → (after.scan_id ≡ before.scan_id) × (after.vulnerability_id ≡ before.vulnerability_id)
unfolding transitioned
same_join o = (
  ap (λ (f : VulnerabilityFinding). f.scan_id) o.checked.written,
  ap (λ (f : VulnerabilityFinding). f.vulnerability_id) o.checked.written,
)

suppressed_count :
    (db : Database) (req : StatusUpdate) (before after : VulnerabilityFinding) (scan_id : Uuid)
    → (update_vulnerability_status db req).0 ≡ ok (before, after)
    → after.status ≡ suppressed
    → count_open_critical_cves (update_vulnerability_status db req).1 scan_id
      ≡ count_open_critical_cves db scan_id
suppressed_count db req before after scan_id h sup =
    let o = update-Outcome db req before after h in
    let allowed = (update-writes db req before after 0 h).4 in
    let (scan, vuln) = same_join o in
    let closed = from_open before.status after.status allowed sup in
    let same : open_critical db.vulnerabilities scan_id after
        ≡ open_critical db.vulnerabilities scan_id before =
      rw (scan, vuln, closed) refl in
    omega (arith, count_open_critical-update db req before after scan_id h, ap bit same)

update_scans :
    {db : Database} {req : StatusUpdate} {before after : VulnerabilityFinding}
    → Outcome db req before after
    → ((update_vulnerability_status db req).1.scans ≡ db.scans)
      × ((update_vulnerability_status db req).1.licenses ≡ db.licenses)
      × ((update_vulnerability_status db req).1.license_findings ≡ db.license_findings)
update_scans o = rw o.saved (unfold save_update in (refl, refl, refl))

forbidden-same :
    (db after_db : Database) (scan_id : Uuid)
    → after_db.licenses ≡ db.licenses
    → after_db.license_findings ≡ db.license_findings
    → count_forbidden_license_components after_db scan_id
      ≡ count_forbidden_license_components db scan_id
unfolding count_forbidden_license_components
forbidden-same db after_db scan_id licenses findings = rw (licenses, findings) refl

latest-same :
    (db after_db : Database) (project_id : Uuid)
    → after_db.scans ≡ db.scans
    → latest_succeeded_scan after_db project_id ≡ latest_succeeded_scan db project_id
unfolding latest_succeeded_scan
latest-same db after_db project_id scans = rw scans refl

gate_of_scan-same :
    (db after_db : Database) (project_id : Uuid) (now : Timestamp) (o : Option Scan)
    → ((scan_id : Uuid)
        → count_open_critical_cves after_db scan_id ≡ count_open_critical_cves db scan_id)
    → ((scan_id : Uuid)
        → count_forbidden_license_components after_db scan_id
          ≡ count_forbidden_license_components db scan_id)
    → gate_of_scan after_db project_id now o ≡ gate_of_scan db project_id now o
unfolding gate_of_scan
gate_of_scan-same db after_db project_id now none cves licenses = refl
gate_of_scan-same db after_db project_id now (some scan) cves licenses =
    rw (cves scan.id, licenses scan.id) refl

-- Suppressing a finding never changes a verdict: the whole gate result of every project is the
-- same before and after.
pub suppression_keeps_gate :
    (db : Database) (req : StatusUpdate) (before after : VulnerabilityFinding) (project_id : Uuid)
    (now : Timestamp)
    → (update_vulnerability_status db req).0 ≡ ok (before, after)
    → after.status ≡ suppressed
    → evaluate_gate (update_vulnerability_status db req).1 project_id now
      ≡ evaluate_gate db project_id now
suppression_keeps_gate db req before after project_id now h sup =
    let (scans, licenses, findings) = update_scans (update-Outcome db req before after h) in
    unfold evaluate_gate in
    rw (latest-same db (update_vulnerability_status db req).1 project_id scans) (
      gate_of_scan-same db (update_vulnerability_status db req).1 project_id now _
        (λ scan_id. suppressed_count db req before after scan_id h sup)
        (λ scan_id.
          forbidden-same db (update_vulnerability_status db req).1 scan_id licenses findings))
