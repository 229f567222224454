-- ===== src/PolicyGate/Blocked.antt =====
-- What the policy promises, said of single scans and findings.
use trustedoss_portal.Prelude.{
  Bool, true, false, not, ◌&&◌, ◌||◌, Option, none, some, List, [], ◌∷◌, leb, ◌==◌, Uuid, any, find,
  ◌⊎◌, ◌≡◌, refl, All, All-map,
}
use mathlib.Core.Path.{ap₂}
use mathlib.Core.List.{Mem, mem-cons_self, mem-cons_of_mem}
use trustedoss_portal.Model.{
  Scan, ScanStatus, Severity, FindingStatus, LicenseCategory, Vulnerability, VulnerabilityFinding,
  License, LicenseFinding, Database,
}
use trustedoss_portal.PolicyGate.{
  is_succeeded, is_critical, is_forbidden, is_closed, succeeded_of, vulnerability_is, license_is,
  open_critical, forbidden_in, pass, fail, GateOutcome,
}

-- A status that still holds a finding against the build, a suppressed one too.
abbrev pub is_unresolved : FindingStatus → Bool
is_unresolved FindingStatus.new = true
is_unresolved FindingStatus.analyzing = true
is_unresolved FindingStatus.exploitable = true
is_unresolved FindingStatus.suppressed = true
is_unresolved FindingStatus.not_affected = false
is_unresolved FindingStatus.false_positive = false
is_unresolved FindingStatus.fixed = false

abbrev pub is_worst : Severity → Bool
is_worst Severity.critical = true
is_worst Severity.high = false
is_worst Severity.medium = false
is_worst Severity.low = false
is_worst Severity.info = false
is_worst Severity.unknown = false

abbrev pub is_banned : LicenseCategory → Bool
is_banned LicenseCategory.allowed = false
is_banned LicenseCategory.conditional = false
is_banned LicenseCategory.forbidden = true
is_banned LicenseCategory.unknown = false

abbrev pub names_worst : Option Vulnerability → Bool
names_worst none = false
names_worst (some v) = is_worst v.severity

abbrev pub names_banned : Option License → Bool
names_banned none = false
names_banned (some l) = is_banned l.category

abbrev pub blocks_by : Database → Scan → VulnerabilityFinding → Bool
blocks_by db scan f =
    is_unresolved f.status
    && ((f.scan_id == scan.id)
        && names_worst (find (λ (v : Vulnerability). v.id) f.vulnerability_id db.vulnerabilities))

abbrev pub blocks_by_license : Database → Scan → LicenseFinding → Bool
blocks_by_license db scan f =
    (f.scan_id == scan.id) && names_banned (find (λ (l : License). l.id) f.license_id db.licenses)

abbrev pub blocks : Database → Scan → Bool
blocks db scan =
    any (blocks_by db scan) db.vulnerability_findings
    || any (blocks_by_license db scan) db.license_findings

abbrev pub is_done : ScanStatus → Bool
is_done ScanStatus.queued = false
is_done ScanStatus.running = false
is_done ScanStatus.succeeded = true
is_done ScanStatus.failed = false
is_done ScanStatus.cancelled = false

abbrev pub is_done_of : Uuid → Scan → Bool
is_done_of project_id s = is_done s.status && (s.project_id == project_id)

abbrev pub fails : GateOutcome → Bool
fails pass = false
fails fail = true

-- Either no scan of the project succeeded and the gate passes, or a scan `s` is a newest one of
-- the project that succeeded, and the gate fails exactly when that scan blocks.
abbrev pub IsJudged : Database → Uuid → GateOutcome → Type 0
IsJudged db project_id gate =
    ((any (is_done_of project_id) db.scans ≡ false) × (gate ≡ pass))
    ⊎ ((s : Scan) × Mem s db.scans
        × (is_done_of project_id s ≡ true)
        × All (λ r. (not (is_done_of project_id r) || leb r.created_at s.created_at) ≡ true)
            db.scans
        × (fails gate ≡ blocks db s))

pub is_done-is_succeeded : (x : ScanStatus) → is_done x ≡ is_succeeded x
is_done-is_succeeded ScanStatus.queued = refl
is_done-is_succeeded ScanStatus.running = refl
is_done-is_succeeded ScanStatus.succeeded = refl
is_done-is_succeeded ScanStatus.failed = refl
is_done-is_succeeded ScanStatus.cancelled = refl

is_unresolved-is_closed : (x : FindingStatus) → is_unresolved x ≡ not (is_closed x)
is_unresolved-is_closed FindingStatus.new = refl
is_unresolved-is_closed FindingStatus.analyzing = refl
is_unresolved-is_closed FindingStatus.exploitable = refl
is_unresolved-is_closed FindingStatus.suppressed = refl
is_unresolved-is_closed FindingStatus.not_affected = refl
is_unresolved-is_closed FindingStatus.false_positive = refl
is_unresolved-is_closed FindingStatus.fixed = refl

is_worst-is_critical : (x : Severity) → is_worst x ≡ is_critical x
is_worst-is_critical Severity.critical = refl
is_worst-is_critical Severity.high = refl
is_worst-is_critical Severity.medium = refl
is_worst-is_critical Severity.low = refl
is_worst-is_critical Severity.info = refl
is_worst-is_critical Severity.unknown = refl

is_banned-is_forbidden : (x : LicenseCategory) → is_banned x ≡ is_forbidden x
is_banned-is_forbidden LicenseCategory.allowed = refl
is_banned-is_forbidden LicenseCategory.conditional = refl
is_banned-is_forbidden LicenseCategory.forbidden = refl
is_banned-is_forbidden LicenseCategory.unknown = refl

names_worst-vulnerability_is :
    (o : Option Vulnerability) → names_worst o ≡ vulnerability_is is_critical o
names_worst-vulnerability_is none = refl
names_worst-vulnerability_is (some v) = is_worst-is_critical v.severity

names_banned-license_is : (o : Option License) → names_banned o ≡ license_is is_forbidden o
names_banned-license_is none = refl
names_banned-license_is (some l) = is_banned-is_forbidden l.category

swapped : (a b c : Bool) → (a && (b && c)) ≡ (b && (c && a))
swapped true true true = refl
swapped true true false = refl
swapped true false c = refl
swapped false true true = refl
swapped false true false = refl
swapped false false c = refl

any_same : {A : Type 0} (p q : A → Bool) (xs : List A) → ((x : A) → p x ≡ q x) → any p xs ≡ any q xs
any_same p q [] h = refl
any_same p q (x ∷ xs) h = ap₂ (λ a b. a || b) (h x) (any_same p q xs h)

pub blocks-open :
    (db : Database) (s : Scan)
    → blocks db s ≡ (
        any (open_critical db.vulnerabilities s.id) db.vulnerability_findings
        || any (forbidden_in db.licenses s.id) db.license_findings)
blocks-open db s =
    ap₂ (λ a b. a || b)
      (any_same (blocks_by db s) (open_critical db.vulnerabilities s.id) db.vulnerability_findings
        (λ f.
          rw
            (
              is_unresolved-is_closed f.status,
              names_worst-vulnerability_is
                  (find (λ (v : Vulnerability). v.id) f.vulnerability_id db.vulnerabilities),
            )
            (swapped (not (is_closed f.status)) (f.scan_id == s.id) (
              vulnerability_is is_critical
                (find (λ (v : Vulnerability). v.id) f.vulnerability_id db.vulnerabilities)))))
      (any_same (blocks_by_license db s) (forbidden_in db.licenses s.id) db.license_findings (λ f.
        rw (names_banned-license_is (find (λ (l : License). l.id) f.license_id db.licenses)) refl))

pub is_done_of-succeeded_of : (p : Uuid) (s : Scan) → is_done_of p s ≡ succeeded_of p s
is_done_of-succeeded_of p s =
    rw (is_done-is_succeeded s.status) (and_comm (is_succeeded s.status) (s.project_id == p))
  where
    and_comm : (a b : Bool) → (a && b) ≡ (b && a)
    and_comm true true = refl
    and_comm true false = refl
    and_comm false true = refl
    and_comm false false = refl

pub is_done_of-any :
    (p : Uuid) (scans : List Scan) → any (is_done_of p) scans ≡ any (succeeded_of p) scans
is_done_of-any p scans = any_same _ _ scans (is_done_of-succeeded_of p)

pub self_All : (scans : List Scan) → All (λ s. Mem s scans) scans
self_All [] = tt
self_All (s ∷ scans) =
    (mem-cons_self, All-map _ _ scans (λ r m. mem-cons_of_mem s m) (self_All scans))
