-- ===== src/PolicyGate/Examples.antt =====
-- The theorems on the policy gate at a concrete project.
use trustedoss_portal.Model.{new, pending, ScanStatus, Database}
use trustedoss_portal.Samples.{store}
use trustedoss_portal.PolicyGate.{evaluate_gate}
use trustedoss_portal.PolicyGate.Blocked.{IsJudged}
use trustedoss_portal.PolicyGate.Verdict.{evaluate_gate-fails}

abbrev db : Database
db = store new pending ScanStatus.failed

evaluate_gate-fails_example : IsJudged db 21 (evaluate_gate db 21 9).gate
evaluate_gate-fails_example = evaluate_gate-fails db 21 9
