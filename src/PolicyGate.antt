-- ===== src/PolicyGate.antt =====
-- apps/backend/services/policy_gate.py: the build-blocking verdict of a project. The two queries
-- read the findings of the latest succeeded scan; `evaluated_at` is the clock reading.
mod Blocked
mod Verdict
mod Latest
mod TriageEffect
mod Examples
use Prim.Native.String.{◌++◌}
use trustedoss_portal.Prelude.{
  ℕ, zero, suc, ◌+◌, String, Bool, true, false, not, ◌&&◌, ◌||◌, Option, none, some, List, [], ◌∷◌,
  map, select, length, leb, ltb, ◌==◌, if◌then◌else◌, Uuid, Timestamp, count_if, contains, find,
  order_by, decimal,
}
use trustedoss_portal.Model.{
  Scan, ScanStatus, Severity, FindingStatus, not_affected, false_positive, fixed, LicenseCategory,
  Vulnerability, VulnerabilityFinding, License, LicenseFinding, Database,
}

abbrev pub is_succeeded : ScanStatus → Bool
is_succeeded ScanStatus.succeeded = true
is_succeeded _ = false

abbrev pub is_critical : Severity → Bool
is_critical Severity.critical = true
is_critical _ = false

abbrev pub is_forbidden : LicenseCategory → Bool
is_forbidden LicenseCategory.forbidden = true
is_forbidden _ = false

-- `_CLOSED_FINDING_STATUSES`; `suppressed` is not among them.
abbrev pub is_closed : FindingStatus → Bool
is_closed not_affected = true
is_closed fixed = true
is_closed false_positive = true
is_closed _ = false

abbrev pub succeeded_of : Uuid → Scan → Bool
succeeded_of project_id s = (s.project_id == project_id) && is_succeeded s.status

-- `ORDER BY created_at DESC, id DESC`
abbrev pub newest_first : Scan → Scan → Bool
newest_first a b =
    ltb b.created_at a.created_at || ((a.created_at == b.created_at) && leb b.id a.id)

abbrev pub first : List Scan → Option Scan
first [] = none
first (s ∷ _) = some s

-- The row whose id `_latest_succeeded_scan_id` returns.
pub latest_succeeded_scan : Database → Uuid → Option Scan
latest_succeeded_scan db project_id =
    first (order_by newest_first (select (succeeded_of project_id) db.scans))

-- The joined row has the tested column.
abbrev pub vulnerability_is : (Severity → Bool) → Option Vulnerability → Bool
vulnerability_is p none = false
vulnerability_is p (some v) = p v.severity

abbrev pub license_is : (LicenseCategory → Bool) → Option License → Bool
license_is p none = false
license_is p (some l) = p l.category

abbrev pub open_critical : List Vulnerability → Uuid → VulnerabilityFinding → Bool
open_critical vulnerabilities scan_id f =
    (f.scan_id == scan_id)
    && (vulnerability_is is_critical
          (find (λ (v : Vulnerability). v.id) f.vulnerability_id vulnerabilities)
        && not (is_closed f.status))

pub count_open_critical_cves : Database → Uuid → ℕ
count_open_critical_cves db scan_id =
    count_if (open_critical db.vulnerabilities scan_id) db.vulnerability_findings

abbrev pub forbidden_in : List License → Uuid → LicenseFinding → Bool
forbidden_in licenses scan_id f =
    (f.scan_id == scan_id)
    && license_is is_forbidden (find (λ (l : License). l.id) f.license_id licenses)

-- `DISTINCT`
pub distinct : List ℕ → List ℕ
distinct [] = []
distinct (x ∷ xs) = let rest = distinct xs in if contains x rest then rest else x ∷ rest

pub count_forbidden_license_components : Database → Uuid → ℕ
unfolding distinct
count_forbidden_license_components db scan_id = length (
    distinct (
      map (λ (f : LicenseFinding). f.component_version_id)
        (select (forbidden_in db.licenses scan_id) db.license_findings)))

-- The noun of a count: singular for 1.
abbrev pub noun : ℕ → String → String → String
noun n one many = if n == 1 then one else many

abbrev pub part : ℕ → String → List String → List String
part n text rest = if ltb 0 n then text ∷ rest else rest

abbrev pub join : List String → Option String
join [] = none
join (a ∷ []) = some a
join (a ∷ b ∷ _) = some (a ++ ("; " ++ b))

-- `_build_reason`
pub build_reason : ℕ → ℕ → Option String
build_reason critical_cve_count forbidden_license_count = join (
    part critical_cve_count
      (decimal critical_cve_count
        ++ (" critical " ++ (noun critical_cve_count "CVE" "CVEs" ++ " detected")))
      (part forbidden_license_count
        (decimal forbidden_license_count
          ++ (" forbidden-licensed "
              ++ (noun forbidden_license_count "component" "components" ++ " detected")))
        []))

pub data GateOutcome : Type 0 where
  pass fail : GateOutcome

pub record GateResult : Type 0 where
  pub gate : GateOutcome
  pub reason : Option String
  pub critical_cve_count : ℕ
  pub forbidden_license_count : ℕ
  pub project_id : Uuid
  pub scan_id : Option Uuid
  pub evaluated_at : Timestamp

-- `"fail" if reason is not None else "pass"`
abbrev pub outcome_of : Option String → GateOutcome
outcome_of none = pass
outcome_of (some _) = fail

gate_of_scan : Database → Uuid → Timestamp → Option Scan → GateResult
unfolding build_reason
gate_of_scan db project_id now none = record {
  gate = pass;
  reason = none;
  critical_cve_count = 0;
  forbidden_license_count = 0;
  project_id = project_id;
  scan_id = none;
  evaluated_at = now;
}
gate_of_scan db project_id now (some scan) =
    let critical_cve_count = count_open_critical_cves db scan.id in
    let forbidden_license_count = count_forbidden_license_components db scan.id in
    let reason = build_reason critical_cve_count forbidden_license_count in
    record {
      gate = outcome_of reason;
      reason = reason;
      critical_cve_count = critical_cve_count;
      forbidden_license_count = forbidden_license_count;
      project_id = project_id;
      scan_id = some scan.id;
      evaluated_at = now;
    }

pub evaluate_gate : Database → Uuid → Timestamp → GateResult
unfolding gate_of_scan
evaluate_gate db project_id now =
    gate_of_scan db project_id now (latest_succeeded_scan db project_id)
