-- ===== src/Triage/History/Tracked.antt =====
-- The history after an update.
use mathlib.Core.Path.{subst}
use mathlib.Core.List.{append-nil}
use trustedoss_portal.Prelude.{
  ◌<◌, ◌≡◌, refl, ap, sym, ◌∙◌, inl, inr, String, true, false, Option, none, some, List, [], ◌∷◌,
  ◌++◌, select, ◌==◌, ==_refl, ==_iff, if◌then◌else◌, Uuid, Timestamp, All, select-All, arith,
  Bool-cases, Option-cases, find, key-find, order_by, order_by-append, select-append, ok,
}
use trustedoss_portal.Model.{
  FindingStatus, new, analyzing, exploitable, not_affected, false_positive, suppressed, fixed,
  VulnerabilityFinding, Database, AuditLog, AuditAction,
}
use trustedoss_portal.Triage.Status.{status_transitions, status_name, same_status, is_allowed}
use trustedoss_portal.Triage.{
  StatusUpdate, transitioned, finding_diff, audit_of, save_update, update_vulnerability_status,
}
use trustedoss_portal.Triage.Update.{
  finding_id_of, Outcome, update-Outcome, update-writes, find-save_update, written_id,
}
use trustedoss_portal.Triage.History.{
  HistoryEntry, status_in, is_update_of, oldest_first, entry_of, walk, updates_of, head_entry,
  history_from, load_status_history,
}

is_allowed-differs : (a b : FindingStatus) → is_allowed a b ≡ true → same_status a b ≡ false
unfolding is_allowed status_transitions
is_allowed-differs new b h = ground (arith, h)
is_allowed-differs analyzing b h = ground (arith, h)
is_allowed-differs exploitable b h = ground (arith, h)
is_allowed-differs not_affected b h = ground (arith, h)
is_allowed-differs false_positive b h = ground (arith, h)
is_allowed-differs suppressed b h = ground (arith, h)
is_allowed-differs fixed b h = ground (arith, h)

-- The status that a history ends with.
abbrev pub last_of : Option String → List HistoryEntry → Option String
last_of last_status [] = last_status
last_of last_status (e ∷ es) = last_of (some e.new_status) es

walk-append :
    (last_status : Option String) (rows : List AuditLog) (a : AuditLog)
    → walk last_status (rows ++ a ∷ [])
      ≡ walk last_status rows ++ walk (last_of last_status (walk last_status rows)) (a ∷ [])
unfolding walk
walk-append last_status [] a = refl
walk-append last_status (b ∷ rows) a = elim (Option-cases (status_in b.diff)) [
  | inl silent ↦ rw silent (walk-append last_status rows a)
  | inr (s, set) ↦ rw set (ap (λ es. entry_of last_status b s ∷ es) (walk-append (some s) rows a))
]

abbrev IsOlder : AuditLog → AuditLog → Type 0
IsOlder y x = oldest_first x y ≡ true

-- The row that the commit of a successful update adds.
status_in-finding_diff :
    (before after : VulnerabilityFinding) (actor_id : Uuid) (now : Timestamp)
    → same_status before.status after.status ≡ false
    → status_in (finding_diff before after actor_id now) ≡ some (status_name after.status)
unfolding status_in finding_diff
status_in-finding_diff before after actor_id now differs = rw differs refl

is_update_of-audit_of :
    (before after : VulnerabilityFinding) (req : StatusUpdate) (j : Uuid)
    → is_update_of j (audit_of before after req) ≡ (before.id == j)
unfolding is_update_of audit_of
is_update_of-audit_of before after req j = ground arith

module _ {db : Database} {req : StatusUpdate} {before after : VulnerabilityFinding}
    (o : Outcome db req before after) where
  before_id : before.id ≡ req.finding_id
  before_id = key-find finding_id_of req.finding_id db.vulnerability_findings before o.found

  -- The audit rows of the finding, one more than before.
  updates_of-save_update :
      All (IsOlder (audit_of before after req)) db.audit_logs
      → updates_of (save_update db req (before, after)) req.finding_id
        ≡ updates_of db req.finding_id ++ audit_of before after req ∷ []
  unfolding save_update
  updates_of-save_update older =
      let p = is_update_of req.finding_id in
      let a = audit_of before after req in
      let mine : p a ≡ true =
        is_update_of-audit_of before after req req.finding_id
        ∙ rw before_id (==_refl req.finding_id) in
      ap (order_by oldest_first) (select-append p db.audit_logs a)
      ∙ rw mine (
          order_by-append oldest_first a (select p db.audit_logs)
            (select-All (IsOlder a) p db.audit_logs older))

  other-updates :
      (j : Uuid)
      → (req.finding_id == j) ≡ false
      → updates_of (save_update db req (before, after)) j ≡ updates_of db j
  unfolding save_update
  other-updates j other =
      let a = audit_of before after req in
      let theirs : is_update_of j a ≡ false =
        is_update_of-audit_of before after req j ∙ ap (λ k. k == j) before_id ∙ other in
      ap (order_by oldest_first) (select-append (is_update_of j) db.audit_logs a)
      ∙ rw theirs (ap (order_by oldest_first) (append-nil (select (is_update_of j) db.audit_logs)))

  created_written : after.created_at ≡ before.created_at
  unfolding transitioned
  created_written = ap (λ (f : VulnerabilityFinding). f.created_at) o.checked.written

one_entry :
    (before after : VulnerabilityFinding) (req : StatusUpdate) (last_status : Option String)
    → same_status before.status after.status ≡ false
    → walk last_status (audit_of before after req ∷ [])
      ≡ record {
        actor_user_id = some req.actor.id;
        action = AuditAction.update;
        previous_status = last_status;
        new_status = status_name after.status;
        created_at = req.started_at;
      }
        ∷ []
unfolding walk audit_of
one_entry before after req last_status differs =
    rw (status_in-finding_diff before after req.actor.id req.now differs) refl

head_same :
    (before after : VulnerabilityFinding)
    → after.created_at ≡ before.created_at
    → head_entry after ≡ head_entry before
head_same before after e =
    ap
      (λ (t : Timestamp). record {
        actor_user_id = none;
        action = AuditAction.create;
        previous_status = none;
        new_status = "new";
        created_at = t;
      })
      e

history_found :
    (db : Database) (id : Uuid) (f : VulnerabilityFinding)
    → find finding_id_of id db.vulnerability_findings ≡ some f
    → load_status_history db id ≡ head_entry f ∷ walk (some "new") (updates_of db id)
unfolding load_status_history
history_found db id f found = rw found refl

abbrev pub entry_after : StatusUpdate → VulnerabilityFinding → List HistoryEntry → HistoryEntry
entry_after req after history = record {
  actor_user_id = some req.actor.id;
  action = AuditAction.update;
  previous_status = last_of none history;
  new_status = status_name after.status;
  created_at = req.started_at;
}

comes_last :
    (before after : VulnerabilityFinding) (req : StatusUpdate) (rows : List AuditLog)
    → All (λ (a : AuditLog). a.created_at < req.started_at) rows
    → All (IsOlder (audit_of before after req)) rows
unfolding audit_of
comes_last before after req [] h = tt
comes_last before after req (a ∷ rows) h = (
  let earlier : a.created_at < req.started_at = h.0 in ground arith,
  comes_last before after req rows h.1,
)

history-update :
    {db : Database} {req : StatusUpdate} {before after : VulnerabilityFinding}
    → Outcome db req before after
    → same_status before.status after.status ≡ false
    → All (IsOlder (audit_of before after req)) db.audit_logs
    → load_status_history (save_update db req (before, after)) req.finding_id
      ≡ load_status_history db req.finding_id
        ++ entry_after req after (load_status_history db req.finding_id) ∷ []
history-update {db} {req} {before} {after} o differs older =
    let id = req.finding_id in
    let saved = save_update db req (before, after) in
    let written = walk (some "new") (updates_of db id) in
    let here : find finding_id_of id saved.vulnerability_findings ≡ some after =
      rw (==_refl id) at (find-save_update db req before after id o.found (written_id o)) in
    let grown : walk (some "new") (updates_of saved id)
        ≡ written ++ entry_after req after (head_entry before ∷ written) ∷ [] =
      ap (walk (some "new")) (updates_of-save_update o older)
      ∙ walk-append (some "new") (updates_of db id) (audit_of before after req)
      ∙ ap (λ es. written ++ es)
          (one_entry before after req (last_of (some "new") written) differs) in
    history_found saved id after here
    ∙ ap (λ e. e ∷ walk (some "new") (updates_of saved id))
        (head_same before after (created_written o))
    ∙ ap (λ es. head_entry before ∷ es) grown
    ∙ sym (ap (λ h. h ++ entry_after req after h ∷ []) (history_found db id before o.found))

history-other :
    {db : Database} {req : StatusUpdate} {before after : VulnerabilityFinding}
    → Outcome db req before after
    → (j : Uuid) → (req.finding_id == j) ≡ false
    → load_status_history (save_update db req (before, after)) j ≡ load_status_history db j
unfolding load_status_history
history-other {db} {req} {before} {after} o j other =
    ap (λ f. history_from f (updates_of (save_update db req (before, after)) j))
      (rw other at (find-save_update db req before after j o.found (written_id o)))
    ∙ ap (history_from (find finding_id_of j db.vulnerability_findings)) (other-updates o j other)

-- A successful update, whose transaction starts later than every audit row is dated, adds one entry to the
-- end of the history of its finding, with the actor, the start of the transaction and the new status, and
-- as the previous status the one that the history ended with. The history of every other finding stays
-- as it was.
pub load_status_history-update :
    (db : Database) (req : StatusUpdate) (before after : VulnerabilityFinding) (j : Uuid)
    → (update_vulnerability_status db req).0 ≡ ok (before, after)
    → All (λ (a : AuditLog). a.created_at < req.started_at) db.audit_logs
    → load_status_history (update_vulnerability_status db req).1 j
      ≡ load_status_history db j
        ++ (if req.finding_id == j
            then entry_after req after (load_status_history db j) ∷ []
            else [])
load_status_history-update db req before after j done earlier =
    let o = update-Outcome db req before after done in
    let (_, _, _, _, allowed, _) = update-writes db req before after req.finding_id done in
    let differs = is_allowed-differs before.status after.status allowed in
    let older = comes_last before after req db.audit_logs earlier in
    ap (λ d. load_status_history d j) o.saved ∙ elim (Bool-cases (req.finding_id == j)) [
      | inl mine ↦ rw mine (
          subst
            (λ k.
              load_status_history (save_update db req (before, after)) k
              ≡ load_status_history db k ++ entry_after req after (load_status_history db k) ∷ [])
            ((==_iff req.finding_id j).0 mine) (history-update o differs older))
      | inr other ↦ rw other (history-other o j other ∙ sym (append-nil (load_status_history db j)))
    ]
