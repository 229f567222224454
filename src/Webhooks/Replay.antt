-- ===== src/Webhooks/Replay.antt =====
-- A delivery that is sent again.
use mathlib.Core.Path.{subst}
use trustedoss_portal.Prelude.{
  ◌≡◌, refl, ap, sym, ◌∙◌, inl, inr, String, true, false, ◌||◌, or_true, Option, none, some, List,
  [], ◌∷◌, ◌==◌, Uuid, Text, any, any-update_where, text_eq_refl, arith, Bool-cases, Option-cases,
  Result-cases, ok_inj, some_inj, Result, ok, guard, require, >>=-eq-ok, find,
}
use trustedoss_portal.Model.{Provider, github, gitlab, Scan, WebhookDelivery, Database}
use trustedoss_portal.Scans.Rows.{put_scan, scan_id_of}
use trustedoss_portal.Webhooks.Acceptance.{
  Digests, Hook, Accepted, project_not_found, signature_invalid, accept, present, verified,
  repo_url_of, find_project_by_git_url, same_provider,
}
use trustedoss_portal.Webhooks.{
  Processed, same_delivery, recordable, record_delivery, new_delivery, with_scan, process_accepted,
  process_webhook, recorded, Request, run,
}
use trustedoss_portal.Webhooks.Keeps.{Keeps, process_recorded-keeps, run-keeps}

same_provider_refl : (p : Provider) → same_provider p p ≡ true
same_provider_refl github = refl
same_provider_refl gitlab = refl

present-eq-ok : (o : Option Text) (t : Text) → present o ≡ ok t → o ≡ some t
present-eq-ok none t h = absurd (cc h)
present-eq-ok (some []) t h = absurd (cc h)
present-eq-ok (some (c ∷ s)) t h = ap (λ x. some x) (ok_inj h)

-- What an accepted request names.
pub accept-eq-ok :
    (h : Digests) (seen : Database) (provider : Provider) (hook : Hook) (a : Accepted)
    → accept h seen provider hook ≡ ok a
    → (a.provider ≡ provider) × (hook.delivery_id ≡ some a.delivery_id)
unfolding accept
accept-eq-ok h seen provider hook a e =
    let (signature, _, e1) = >>=-eq-ok (present hook.signature) _ e in
    let (delivery_id, named, e2) = >>=-eq-ok (present hook.delivery_id) _ e1 in
    let (event, _, e3) = >>=-eq-ok (present hook.event) _ e2 in
    let (url, _, e4) =
      >>=-eq-ok (require (repo_url_of provider hook.payload) project_not_found) _ e3 in
    let (project, _, e5) =
      >>=-eq-ok (require (find_project_by_git_url seen provider url) project_not_found) _ e4 in
    let (secret, _, e6) = >>=-eq-ok (require project.webhook_secret project_not_found) _ e5 in
    let (_, _, e7) =
      >>=-eq-ok (guard (verified provider h hook.body signature secret) signature_invalid) _ e6 in
    let made = ok_inj e7 in
    (
      sym (ap (λ (x : Accepted). x.provider) made),
      present-eq-ok hook.delivery_id delivery_id named
          ∙ ap (λ (x : Accepted). some x.delivery_id) made,
    )

-- A delivery has been recorded.
abbrev pub IsRecorded : Provider → Text → Database → Type 0
IsRecorded provider id db = any (same_delivery provider id) db.webhook_deliveries ≡ true

IsRecorded-Keeps :
    (h : Digests) (provider : Provider) (id : Text) → Keeps h (IsRecorded provider id)
unfolding put_scan
IsRecorded-Keeps h provider id = record {
  recording = λ db hook a r fresh.
      ap (λ b. same_delivery provider id (new_delivery h hook a) || b) r
      ∙ or_true (same_delivery provider id (new_delivery h hook a));
  inserting = λ db hook a project r idle. r;
  dispatching = λ db answer scan_id r. elim (Option-cases (find scan_id_of scan_id db.scans)) [
    | inl missing ↦ rw missing r
    | inr (scan, found) ↦ rw found r
  ];
  linking = λ db delivery scan_id r.
      any-update_where (λ (d : WebhookDelivery). d.id == delivery.id) (with_scan scan_id)
        (same_delivery provider id) db.webhook_deliveries (λ d. refl)
      ∙ r;
}

-- A recorded delivery is not recorded again, and nothing else is written.
refused-IsRecorded :
    (db : Database) (hook : Hook) (a : Accepted)
    → IsRecorded a.provider a.delivery_id db
    → recordable db hook a ≡ false
unfolding recordable
refused-IsRecorded db hook a r = ground (arith, r)

process_webhook-IsRecorded :
    (h : Digests) (enqueue : Scan → Result String String) (provider : Provider) (seen db : Database)
    (hook : Hook) (id : Text)
    → hook.delivery_id ≡ some id
    → IsRecorded provider id db
    → (process_webhook h enqueue provider seen db hook).1 ≡ db
unfolding process_webhook record_delivery
process_webhook-IsRecorded h enqueue provider seen db hook id named r =
    elim (Result-cases (accept h seen provider hook)) [
      | inl (e, raised) ↦ rw raised refl
      | inr (a, accepted) ↦
          let (same, named') = accept-eq-ok h seen provider hook a accepted in
          let e : id ≡ a.delivery_id = some_inj (sym named ∙ named') in
          let r' : IsRecorded a.provider a.delivery_id db =
            subst (λ (p : Provider). IsRecorded p a.delivery_id db) (sym same)
              (subst (λ (t : Text). IsRecorded provider t db) e r) in
          rw accepted (rw (refused-IsRecorded db hook a r') refl)
    ]

new_delivery-IsRecorded :
    (h : Digests) (db : Database) (hook : Hook) (a : Accepted)
    → IsRecorded a.provider a.delivery_id (recorded h db hook a)
new_delivery-IsRecorded h db hook a = rw (same_provider_refl a.provider, text_eq_refl a.delivery_id)

process_accepted-IsRecorded :
    (h : Digests) (enqueue : Scan → Result String String) (db : Database) (hook : Hook)
    (a : Accepted) (r : Processed) (scan_id : Uuid)
    → (process_accepted h enqueue db hook (ok a)).0 ≡ ok r
    → r.scan_id ≡ some scan_id
    → IsRecorded a.provider a.delivery_id (process_accepted h enqueue db hook (ok a)).1
unfolding record_delivery
process_accepted-IsRecorded h enqueue db hook a r scan_id made scanned =
    elim (Bool-cases (recordable db hook a)) [
      | inl fresh ↦ rw fresh (
          process_recorded-keeps h (IsRecorded a.provider a.delivery_id)
            (IsRecorded-Keeps h a.provider a.delivery_id) enqueue hook a (new_delivery h hook a)
            true (recorded h db hook a) (new_delivery-IsRecorded h db hook a))
      | inr refused ↦
          let e = ap (λ (x : Processed). x.scan_id) (ok_inj (rw refused at made)) in
          absurd (cc (e, scanned))
    ]

-- A delivery that enqueued a scan does so once: sent again after any further webhook requests, with whatever body, signature, event or snapshot, it leaves the store exactly as it finds it.
pub delivery_enqueues_once :
    (h : Digests) (enqueue enqueue' : Scan → Result String String) (provider : Provider)
    (seen db seen' : Database) (hook hook' : Hook) (r : Processed) (scan_id : Uuid)
    (qs : List Request)
    → (process_webhook h enqueue provider seen db hook).0 ≡ ok r
    → r.scan_id ≡ some scan_id
    → hook'.delivery_id ≡ hook.delivery_id
    → (process_webhook h enqueue' provider seen'
        (run h (process_webhook h enqueue provider seen db hook).1 qs)
        hook').1
      ≡ run h (process_webhook h enqueue provider seen db hook).1 qs
unfolding process_webhook
delivery_enqueues_once h enqueue enqueue' provider seen db seen' hook hook' r scan_id qs made
      scanned again =
    elim (Result-cases (accept h seen provider hook)) [
      | inl (e, raised) ↦ absurd (cc (rw raised at made))
      | inr (a, accepted) ↦
          let (same, named) = accept-eq-ok h seen provider hook a accepted in
          let first =
            process_accepted-IsRecorded h enqueue db hook a r scan_id (rw accepted at made)
              scanned in
          let kept : IsRecorded provider a.delivery_id
              (run h (process_accepted h enqueue db hook (ok a)).1 qs) =
            run-keeps h (IsRecorded provider a.delivery_id)
              (IsRecorded-Keeps h provider a.delivery_id) _ qs
              (subst
                (λ (p : Provider).
                  IsRecorded p a.delivery_id (process_accepted h enqueue db hook (ok a)).1)
                same first) in
          rw accepted (
            process_webhook-IsRecorded h enqueue' provider seen' _ hook' a.delivery_id
              (again ∙ named) kept)
    ]
