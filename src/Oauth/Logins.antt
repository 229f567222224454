-- ===== src/Oauth/Logins.antt =====
-- A login that succeeds, and the uniqueness of accounts over every run.
use mathlib.Core.Path.{subst}
use trustedoss_portal.Prelude.{
  ◌≤◌, ◌≡◌, refl, sym, ap, ◌∙◌, inl, inr, String, Bool, true, not, ◌&&◌, ◌||◌, Option, some, List,
  [], ◌∷◌, ◌==◌, ==_refl, Uuid, any, count_if, count_if-set_row, find, set_row, ok, require, guard,
  ◌>>=◌, commit_inv, commit-eq-ok, >>=-eq-ok, require-eq-ok, guard-eq-ok, ok_inj, arith, Bool-cases,
  or_true, some_inj,
}
use trustedoss_portal.Model.{User, RefreshToken, OauthIdentity, Database}
use trustedoss_portal.Oauth.State.{
  user_inactive, stale_data, integrity_error, StateClaims, OauthUserInfo, Callback, check_callback,
}
use trustedoss_portal.Oauth.Resolution.{
  Resolved, of_account, identity_id_of, user_id_of, resolve_or_create_user,
}
use trustedoss_portal.Oauth.{stamped, Login, log_in, complete_oauth}
use trustedoss_portal.Oauth.Accounts.{IsUniqueAccount, Gives, without_identity-IsUniqueAccount}
use trustedoss_portal.Oauth.Linked.{IsHeld, resolve-IsHeld, resolve-IsUniqueAccount}
use trustedoss_portal.Oauth.Identities.{
  Unlink, check_unlink, unlinked, unlink_oauth_identity, Request, callback, unlink, step, run,
}

abbrev pub stamped_at : Callback → OauthIdentity → OauthIdentity
stamped_at req i = record i { last_login_at = some req.now }

-- The rows that the stamps find, and what they leave of the identities.
record Stamped (req : Callback) (r : Resolved) (saved : Database) : Type 0 where
  pub row : OauthIdentity
  pub found : find identity_id_of r.identity.id r.flushed.oauth_identities ≡ some row
  pub left :
      set_row identity_id_of r.identity.id (stamped_at req row) r.flushed.oauth_identities
      ≡ saved.oauth_identities

stamped-Stamped :
    (req : Callback) (r : Resolved) (saved : Database)
    → stamped req r ≡ ok saved
    → Stamped req r saved
unfolding stamped
stamped-Stamped req r saved h =
    let (user, _, h1) =
      >>=-eq-ok (require (find user_id_of r.user.id r.flushed.users) stale_data) _ h in
    let (row, found, h2) =
      >>=-eq-ok (require (find identity_id_of r.identity.id r.flushed.oauth_identities) stale_data)
        _ h1 in
    let (_, _, last) =
      >>=-eq-ok
        (guard
          (not (
            any (λ (t : RefreshToken). (t.id == req.fresh_id) || (t.jti == req.fresh_jti))
              r.flushed.refresh_tokens))
          integrity_error)
        _ h2 in
    record {
      row = row;
      found =
          require-eq-ok (find identity_id_of r.identity.id r.flushed.oauth_identities) stale_data
            found;
      left = ap (λ (d : Database). d.oauth_identities) (ok_inj last);
    }

-- The login's chain: what was resolved, that the user is active, and what was stamped.
record LoggedIn (seen db : Database) (req : Callback) (info : OauthUserInfo) (login : Login)
    : Type 0 where
  pub at : Resolved
  pub resolution : resolve_or_create_user seen db req info ≡ ok at
  pub active : at.user.is_active ≡ true
  pub stamps : Stamped req at login.saved
  pub same : at.user ≡ login.user

log_in-LoggedIn :
    (seen db : Database) (req : Callback) (info : OauthUserInfo) (login : Login)
    → log_in seen db req info ≡ ok login
    → LoggedIn seen db req info login
unfolding log_in
log_in-LoggedIn seen db req info login h =
    let (r, resolution, h1) = >>=-eq-ok (resolve_or_create_user seen db req info) _ h in
    let (_, active, h2) = >>=-eq-ok (guard r.user.is_active user_inactive) _ h1 in
    let (saved, stamps, last) = >>=-eq-ok (stamped req r) _ h2 in
    record {
      at = r;
      resolution = resolution;
      active = guard-eq-ok r.user.is_active user_inactive active;
      stamps =
          subst (λ (l : Login). Stamped req r l.saved) (ok_inj last)
            (stamped-Stamped req r saved stamps);
      same = ap (λ (l : Login). l.user) (ok_inj last);
    }

-- The row links the account to the user.
abbrev pub links : OauthUserInfo → Uuid → OauthIdentity → Bool
links info user_id i = of_account info.provider info.provider_user_id i && (i.user_id == user_id)

any-set_row_new :
    (p : OauthIdentity → Bool) (k : Uuid) (old new : OauthIdentity) (rows : List OauthIdentity)
    → find identity_id_of k rows ≡ some old
    → p new ≡ true
    → any p (set_row identity_id_of k new rows) ≡ true
unfolding set_row
any-set_row_new p k old new [] found h = absurd (ground (arith, found))
any-set_row_new p k old new (i ∷ rows) found h = elim (Bool-cases (i.id == k)) [
  | inl here ↦ rw here (rw h refl)
  | inr other ↦
      rw other (
        ap (λ b. p i || b) (any-set_row_new p k old new rows (rw other at found) h) ∙ or_true (p i))
]

-- A login that succeeds with nothing in between its reads and its commit ends at an active user to whom the account, that the provider reported for this state and code, is linked in the store that the commit leaves.
pub complete_oauth-links :
    (decode : String → Option StateClaims) (db : Database) (req : Callback) (login : Login)
    → IsUniqueAccount db
    → (complete_oauth decode db db req).0 ≡ ok login
    → (info : OauthUserInfo) × (check_callback decode req ≡ ok info)
      × (login.user.is_active ≡ true)
      × (any (links info login.user.id) (complete_oauth decode db db req).1.oauth_identities ≡ true)
unfolding complete_oauth
complete_oauth-links decode db req login u h =
    let (checked, saved) =
      commit-eq-ok (do info ← check_callback decode req; log_in db db req info) (λ l. l.saved) db
        h in
    let (info, called, entered) =
      >>=-eq-ok (check_callback decode req) (λ i. log_in db db req i) checked in
    let l = log_in-LoggedIn db db req info login entered in
    let held : IsHeld info l.at =
      subst (Gives (IsHeld info)) l.resolution (resolve-IsHeld req info db u) in
    let row : l.at.identity ≡ l.stamps.row = some_inj (sym held.found ∙ l.stamps.found) in
    let owner : (l.at.identity.user_id == login.user.id) ≡ true =
      ap (λ k. k == login.user.id) (held.owner ∙ ap (λ (v : User). v.id) l.same)
      ∙ ==_refl login.user.id in
    let here : links info login.user.id l.at.identity ≡ true = rw held.account owner in
    let there : links info login.user.id (stamped_at req l.stamps.row) ≡ true =
      subst (λ i. links info login.user.id (stamped_at req i) ≡ true) row here in
    (
      info,
      called,
      ap (λ (v : User). v.is_active) (sym l.same) ∙ l.active,
      ap (λ (d : Database). any (links info login.user.id) d.oauth_identities) saved
          ∙ ap (any (links info login.user.id)) (sym l.stamps.left)
          ∙ any-set_row_new (links info login.user.id) l.at.identity.id l.stamps.row
              (stamped_at req l.stamps.row) l.at.flushed.oauth_identities l.stamps.found there,
    )

saved-IsUniqueAccount :
    (req : Callback) (r : Resolved) (saved : Database)
    → Stamped req r saved
    → IsUniqueAccount r.flushed
    → IsUniqueAccount saved
saved-IsUniqueAccount req r saved s u = record {
  account = λ p id.
      subst (λ rows. count_if (of_account p id) rows ≤ 1) s.left
        (omega (
          arith,
          u.account p id,
          count_if-set_row identity_id_of (of_account p id) r.identity.id s.row
              (stamped_at req s.row) r.flushed.oauth_identities s.found,
        ));
  key = λ k.
      subst (λ rows. count_if (λ (i : OauthIdentity). i.id == k) rows ≤ 1) s.left
        (omega (
          arith,
          u.key k,
          count_if-set_row identity_id_of (λ (i : OauthIdentity). i.id == k) r.identity.id s.row
              (stamped_at req s.row) r.flushed.oauth_identities s.found,
        ));
}

callback-IsUniqueAccount :
    (decode : String → Option StateClaims) (seen db : Database) (req : Callback)
    → IsUniqueAccount db
    → IsUniqueAccount (complete_oauth decode seen db req).1
unfolding complete_oauth
callback-IsUniqueAccount decode seen db req u =
    commit_inv IsUniqueAccount (do info ← check_callback decode req; log_in seen db req info)
      (λ l. l.saved) db u
      λ login passed.
        let (info, _, entered) =
          >>=-eq-ok (check_callback decode req) (λ i. log_in seen db req i) passed in
        let l = log_in-LoggedIn seen db req info login entered in
        saved-IsUniqueAccount req l.at login.saved l.stamps (
          subst (Gives (λ r. IsUniqueAccount r.flushed)) l.resolution
            (resolve-IsUniqueAccount req info seen db u))

pub unlink-IsUniqueAccount :
    (hash : String → String) (db : Database) (req : Unlink)
    → IsUniqueAccount db
    → IsUniqueAccount (unlink_oauth_identity hash db req).1
unfolding unlink_oauth_identity
unlink-IsUniqueAccount hash db req u =
    commit_inv IsUniqueAccount (check_unlink db req) (unlinked hash req db) db u λ i _.
      let v = without_identity-IsUniqueAccount db i.id u in
      record { account = v.account; key = v.key }

step-IsUniqueAccount :
    (decode : String → Option StateClaims) (hash : String → String) (db : Database) (q : Request)
    → IsUniqueAccount db
    → IsUniqueAccount (step decode hash db q)
unfolding step
step-IsUniqueAccount decode hash db (callback seen req) u =
    callback-IsUniqueAccount decode seen db req u
step-IsUniqueAccount decode hash db (unlink req) u = unlink-IsUniqueAccount hash db req u

-- An external account is linked to one user at most, whatever callbacks and unlinks run in whatever interleaving: the snapshot that a callback reads may be any, also one from before another callback for the same account.
pub run-IsUniqueAccount :
    (decode : String → Option StateClaims) (hash : String → String) (db : Database)
    (qs : List Request)
    → IsUniqueAccount db
    → IsUniqueAccount (run decode hash db qs)
unfolding run
run-IsUniqueAccount decode hash db [] u = u
run-IsUniqueAccount decode hash db (q ∷ qs) u =
    run-IsUniqueAccount decode hash (step decode hash db q) qs
      (step-IsUniqueAccount decode hash db q u)
