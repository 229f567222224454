-- ===== src/Triage/History/Runs.antt =====
-- The history after a run of updates.
use mathlib.Core.Path.{subst}
use mathlib.Core.List.{append-nil}
use trustedoss_portal.Prelude.{
  ◌≤◌, ◌<◌, ◌≡◌, refl, ap, sym, ◌∙◌, inl, inr, String, Option, none, some, List, [], ◌∷◌, ◌++◌,
  ◌==◌, if◌then◌else◌, Uuid, Timestamp, All, All-map, All-append, arith, Bool-cases, Result-cases,
  find,
}
use trustedoss_portal.Model.{VulnerabilityFinding, Database, AuditLog}
use trustedoss_portal.Triage.Status.{status_name}
use trustedoss_portal.Triage.{
  StatusUpdate, audit_of, save_update, update_vulnerability_status, run_updates,
}
use trustedoss_portal.Triage.Update.{finding_id_of, update-Outcome, find-save_update, written_id}
use trustedoss_portal.Triage.Conflicts.{update-err}
use trustedoss_portal.Triage.History.{HistoryEntry, load_status_history}
use trustedoss_portal.Triage.History.Tracked.{last_of, entry_after, load_status_history-update}

-- The finding is there, and its history ends with its status.
pub record IsTracked (id : Uuid) (db : Database) : Type 0 where
  pub row : VulnerabilityFinding
  pub found : find finding_id_of id db.vulnerability_findings ≡ some row
  pub current : last_of none (load_status_history db id) ≡ some (status_name row.status)

-- The audit rows are no younger than a moment, and the transactions start at later and later moments.
abbrev pub IsUntil : Timestamp → Database → Type 0
IsUntil t db = All (λ (a : AuditLog). a.created_at ≤ t) db.audit_logs

abbrev pub AreLater : Timestamp → List StatusUpdate → Type 0
AreLater t [] = Unit
AreLater t (req ∷ reqs) = (t < req.started_at) × AreLater req.started_at reqs

last_of-append :
    (last_status : Option String) (es : List HistoryEntry) (e : HistoryEntry)
    → last_of last_status (es ++ e ∷ []) ≡ some e.new_status
last_of-append last_status [] e = refl
last_of-append last_status (x ∷ es) e = last_of-append (some x.new_status) es e

saved-IsUntil :
    (db : Database) (req : StatusUpdate) (before after : VulnerabilityFinding)
    → IsUntil req.started_at db
    → IsUntil req.started_at (save_update db req (before, after))
unfolding save_update audit_of
saved-IsUntil db req before after h =
    All-append (λ (a : AuditLog). a.created_at ≤ req.started_at) db.audit_logs
      (audit_of before after req ∷ []) h (omega arith, tt)

step-IsTracked :
    (id : Uuid) (db : Database) (req : StatusUpdate) (t : Timestamp)
    → IsUntil t db
    → t < req.started_at
    → IsTracked id db
    → IsTracked id (update_vulnerability_status db req).1
      × IsUntil req.started_at (update_vulnerability_status db req).1
step-IsTracked id db req t until later tracked =
    let until' : IsUntil req.started_at db =
      All-map (λ (a : AuditLog). a.created_at ≤ t) (λ (a : AuditLog). a.created_at ≤ req.started_at)
        db.audit_logs (λ a h. omega (arith, h, later)) until in
    let earlier : All (λ (a : AuditLog). a.created_at < req.started_at) db.audit_logs =
      All-map (λ (a : AuditLog). a.created_at ≤ t) (λ (a : AuditLog). a.created_at < req.started_at)
        db.audit_logs (λ a h. omega (arith, h, later)) until in
    elim (Result-cases (update_vulnerability_status db req).0) [
      | inl (x, refused) ↦ rw (update-err db req x refused) (tracked, until')
      | inr ((before, after), done) ↦
          let o = update-Outcome db req before after done in
          let grown = load_status_history-update db req before after id done earlier in
          let there : find finding_id_of id
                (update_vulnerability_status db req).1.vulnerability_findings
              ≡ (if req.finding_id == id
                  then some after
                  else find finding_id_of id db.vulnerability_findings) =
            ap (λ (d : Database). find finding_id_of id d.vulnerability_findings) o.saved
            ∙ find-save_update db req before after id o.found (written_id o) in
          (
            elim (Bool-cases (req.finding_id == id)) [
              | inl mine ↦ record {
                row = after;
                found = rw mine at there;
                current =
                    ap (last_of none) (rw mine at grown)
                    ∙ last_of-append none (load_status_history db id)
                        (entry_after req after (load_status_history db id));
              }
              | inr other ↦ record {
                row = tracked.row;
                found = (rw other at there) ∙ tracked.found;
                current =
                    ap (last_of none) ((rw other at grown) ∙ append-nil (load_status_history db id))
                    ∙ tracked.current;
              }
            ],
            subst (IsUntil req.started_at) (sym o.saved) (saved-IsUntil db req before after until'),
          )
    ]

-- The history of a finding ends with its present status: if it does before a run of updates, whose
-- transactions start later and later, the first one later than every audit row is dated, it does after the
-- run, whichever of the updates are refused. Updates that wait for one another's locks may commit in
-- another order than they start; of those nothing is said.
pub run_updates-IsTracked :
    (id : Uuid) (db : Database) (reqs : List StatusUpdate) (t : Timestamp)
    → IsUntil t db
    → AreLater t reqs
    → IsTracked id db
    → IsTracked id (run_updates db reqs)
unfolding run_updates
run_updates-IsTracked id db [] t until later tracked = tracked
run_updates-IsTracked id db (req ∷ reqs) t until later tracked =
    let (tracked', until') = step-IsTracked id db req t until later.0 tracked in
    run_updates-IsTracked id (update_vulnerability_status db req).1 reqs req.started_at until'
      later.1 tracked'
