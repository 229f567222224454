-- ===== src/PolicyGate/Verdict.antt =====
-- The verdict in terms of single findings.
use trustedoss_portal.Prelude.{
  ℕ, ◌≤◌, Bool, true, false, ◌||◌, Option, none, some, List, [], ◌∷◌, map, ltb, ◌==◌, ==_iff, Uuid,
  contains, any, count_if, bit, Bool-cases, arith, ◌≡◌, inl, inr, refl, sym, ap, ◌∙◌,
}
use mathlib.Core.Path.{ap₂}
use trustedoss_portal.Prelude.{select, length, Timestamp}
use trustedoss_portal.Model.{Scan, Database}
use trustedoss_portal.Prelude.{All, All-map, not, leb}
use trustedoss_portal.PolicyGate.Blocked.{
  fails, blocks, is_done_of, IsJudged, blocks-open, is_done_of-succeeded_of, is_done_of-any,
}
use trustedoss_portal.PolicyGate.Latest.{
  latest_succeeded_scan-newest, latest_succeeded_scan-Mem, latest_succeeded_scan-none,
}
use trustedoss_portal.PolicyGate.{
  distinct, latest_succeeded_scan, open_critical, forbidden_in, count_open_critical_cves,
  count_forbidden_license_components, build_reason, outcome_of, first, succeeded_of, gate_of_scan,
  evaluate_gate,
}

count_pos_iff {ℓ} : {A : Type ℓ} (p : A → Bool) (xs : List A) → ltb 0 (count_if p xs) ≡ any p xs
count_pos_iff p [] = refl
count_pos_iff p (x ∷ xs) = ground (arith, count_pos_iff p xs)

contains-length : (x : ℕ) (xs : List ℕ) → contains x xs ≡ true → 1 ≤ length xs
contains-length x [] h = absurd (ground arith)
contains-length x (y ∷ ys) h = omega arith

distinct-ne-nil : (x : ℕ) (xs : List ℕ) → 1 ≤ length (distinct (x ∷ xs))
unfolding distinct
distinct-ne-nil x xs = elim (Bool-cases (contains x (distinct xs))) [
  | inl again ↦ rw again (contains-length x (distinct xs) again)
  | inr first ↦ rw first (omega arith)
]

contains-distinct : (k : ℕ) (xs : List ℕ) → contains k (distinct xs) ≡ contains k xs
unfolding distinct
contains-distinct k [] = refl
contains-distinct k (x ∷ xs) = elim (Bool-cases (contains x (distinct xs))) [
  | inl again ↦ rw again (elim (Bool-cases (x == k)) [
    | inl here ↦ rw here (rw (← (==_iff x k).0 here) again)
    | inr other ↦ rw other (contains-distinct k xs)
  ])
  | inr first ↦ rw first (ap (λ b. (x == k) || b) (contains-distinct k xs))
]

-- `DISTINCT` keeps each value exactly once.
pub count_if-distinct :
    (k : ℕ) (xs : List ℕ) → count_if (λ x. x == k) (distinct xs) ≡ bit (contains k xs)
unfolding distinct
count_if-distinct k [] = refl
count_if-distinct k (x ∷ xs) = elim (Bool-cases (contains x (distinct xs))) [
  | inl again ↦ rw again (
      count_if-distinct k xs
      ∙ ap bit (sym (contains-distinct k xs) ∙ (rw again at (contains-distinct k (x ∷ xs)))))
  | inr first ↦ rw first (elim (Bool-cases (x == k)) [
    | inl here ↦
        let gone : contains k (distinct xs) ≡ false =
          ap (λ z. contains z (distinct xs)) (sym ((==_iff x k).0 here)) ∙ first in
        rw here
          (omega (arith, count_if-distinct k xs, ap bit (sym (contains-distinct k xs) ∙ gone)))
    | inr other ↦ rw other (omega (arith, count_if-distinct k xs))
  ])
]

distinct_pos_iff :
    {A : Type 0} (p : A → Bool) (f : A → ℕ) (xs : List A)
    → ltb 0 (length (distinct (map f (select p xs)))) ≡ any p xs
distinct_pos_iff p f [] = unfold distinct in refl
distinct_pos_iff p f (x ∷ xs) = elim (Bool-cases (p x)) [
  | inl picked ↦ rw picked (ground (arith, distinct-ne-nil (f x) (map f (select p xs))))
  | inr skipped ↦ rw skipped (distinct_pos_iff p f xs)
]

fails-build_reason : (c f : ℕ) → fails (outcome_of (build_reason c f)) ≡ (ltb 0 c || ltb 0 f)
unfolding build_reason
fails-build_reason c f = elim (Bool-cases (ltb 0 c)) [
  | inl some_c ↦
      rw some_c
        (elim (Bool-cases (ltb 0 f)) [ inl some_f ↦ rw some_f refl | inr no_f ↦ rw no_f refl ])
  | inr no_c ↦
      rw no_c
        (elim (Bool-cases (ltb 0 f)) [ inl some_f ↦ rw some_f refl | inr no_f ↦ rw no_f refl ])
]

verdict_of :
    (db : Database) (project_id : Uuid) (now : Timestamp) (s : Scan)
    → fails (gate_of_scan db project_id now (some s)).gate ≡ blocks db s
unfolding gate_of_scan count_open_critical_cves count_forbidden_license_components
verdict_of db project_id now scan =
    fails-build_reason (count_open_critical_cves db scan.id)
      (count_forbidden_license_components db scan.id)
    ∙ (ap₂ (λ a b. a || b)
          (count_pos_iff (open_critical db.vulnerabilities scan.id) db.vulnerability_findings)
          (distinct_pos_iff (forbidden_in db.licenses scan.id) _ db.license_findings)
        ∙ sym (blocks-open db scan))

as_done :
    (project_id : Uuid) (s : Scan) (scans : List Scan)
    → All (λ r. (not (succeeded_of project_id r) || leb r.created_at s.created_at) ≡ true) scans
    → All (λ r. (not (is_done_of project_id r) || leb r.created_at s.created_at) ≡ true) scans
as_done project_id s scans h =
    All-map _ _ scans (λ r e. rw (is_done_of-succeeded_of project_id r) e) h

judged :
    (db : Database) (project_id : Uuid) (now : Timestamp) (o : Option Scan)
    → latest_succeeded_scan db project_id ≡ o
    → IsJudged db project_id (gate_of_scan db project_id now o).gate
judged db project_id now none h = inl (
  is_done_of-any project_id db.scans ∙ latest_succeeded_scan-none db project_id h,
  unfold gate_of_scan in refl,
)
judged db project_id now (some s) h =
    let (done, newest) = latest_succeeded_scan-newest db project_id s h in
    inr (
      s,
      latest_succeeded_scan-Mem db project_id s h,
      rw (is_done_of-succeeded_of project_id s) done,
      as_done project_id s db.scans newest,
      verdict_of db project_id now s,
    )

-- The gate of a project passes when no scan of the project has succeeded. Otherwise there is a newest
-- succeeded scan of the project, and the gate fails exactly when that scan has a finding of a
-- critical vulnerability whose status is new, analyzing, exploitable or suppressed, or a license
-- finding of a forbidden license.
pub evaluate_gate-fails :
    (db : Database) (project_id : Uuid) (now : Timestamp)
    → IsJudged db project_id (evaluate_gate db project_id now).gate
unfolding evaluate_gate
evaluate_gate-fails db project_id now =
    judged db project_id now (latest_succeeded_scan db project_id) refl
