-- ===== src/Sessions/SingleUse.antt =====
-- A refresh token is used once.
use trustedoss_portal.Prelude.{
  true, false, Option, none, some, List, leb, ◌==◌, ==_iff, is_some, Uuid, Timestamp, any,
  Bool-cases, ok, err, find, set_row, key-find, find-set_row_self, any-set_row, any_of_find, inl,
  inr, ◌≡◌, refl, sym, ◌∙◌,
}
use mathlib.Core.Path.{subst}
use trustedoss_portal.Model.{RefreshToken, Database}
use trustedoss_portal.Sessions.{
  refresh_reuse_detected, jti_of, revoked, TokenRequest, revoke_loaded, reuse, rotate_live,
  rotate_refresh,
}
use trustedoss_portal.Sessions.Chain.{revoke_chain-ends}
use trustedoss_portal.Sessions.Rotation.{Rotated, rotate-Rotated, rotate-used, rotate-unused}

reuse-ends :
    (db : Database) (o : Option (List RefreshToken))
    → is_some o ≡ true
    → (reuse db o).0 ≡ err refresh_reuse_detected
reuse-ends db none h = cc h
reuse-ends db (some tokens) h = refl

-- Presenting a token whose row is revoked is answered as a reuse, whatever its chain.
pub used-reuse_detected :
    (db : Database) (req : TokenRequest) (jti : Uuid) (row : RefreshToken)
    → req.presented ≡ some jti
    → find jti_of jti db.refresh_tokens ≡ some row
    → is_some row.revoked_at ≡ true
    → (rotate_refresh db db req).0 ≡ err refresh_reuse_detected
used-reuse_detected db req jti row presented loaded used =
    rw (rotate-used db db req jti row presented loaded used) (
      reuse-ends db _ (revoke_chain-ends (some row.jti) "reuse_detected" req.now db.refresh_tokens))

pub absent-ne :
    (k j : Uuid) (tokens : List RefreshToken) (t : RefreshToken)
    → any (λ (o : RefreshToken). o.jti == k) tokens ≡ false
    → find jti_of j tokens ≡ some t
    → (k == j) ≡ false
absent-ne k j tokens t absent found = elim (Bool-cases (k == j)) [
  | inl same ↦ absurd (
      cc (
        absent,
        any_of_find jti_of k tokens t
            (subst (λ i. find jti_of i tokens ≡ some t) (sym ((==_iff k j).0 same)) found),
      ))
  | inr differs ↦ differs
]

-- The presented row after its rotation.
find-Rotated :
    (seen db : Database) (req : TokenRequest) (jti : Uuid) (row : RefreshToken) (saved : Database)
    → find jti_of jti seen.refresh_tokens ≡ some row
    → (r : Rotated seen db req row saved)
    → find jti_of jti saved.refresh_tokens ≡ some (revoked "rotated" req.now r.old)
unfolding revoked
find-Rotated seen db req jti row saved loaded r =
    let key = key-find jti_of jti seen.refresh_tokens row loaded in
    let gone = revoked "rotated" req.now r.old in
    let tokens = set_row jti_of row.jti gone db.refresh_tokens in
    let there : find jti_of row.jti tokens ≡ some gone =
      find-set_row_self jti_of row.jti r.old gone db.refresh_tokens r.present
        (key-find jti_of row.jti db.refresh_tokens r.old r.present) in
    let apart : (req.fresh_jti == row.jti) ≡ false =
      absent-ne req.fresh_jti row.jti tokens gone r.fresh there in
    subst (λ k. find jti_of k saved.refresh_tokens ≡ some gone) key (rw r.written (rw apart there))

-- A refresh token is used once: after a rotation that gave a new token, whatever snapshot it had
-- loaded, presenting the old token again to the store that it left is answered as a reuse, at any
-- time.
pub second_rotation_detected :
    (seen db : Database) (first second : TokenRequest) (jti answer : Uuid)
    → first.presented ≡ some jti
    → second.presented ≡ some jti
    → (rotate_refresh seen db first).0 ≡ ok answer
    → (rotate_refresh (rotate_refresh seen db first).1 (rotate_refresh seen db first).1 second).0
      ≡ err refresh_reuse_detected
second_rotation_detected seen db first second jti answer presented again h =
    let (row, loaded, _, r) = rotate-Rotated seen db first jti answer presented h in
    used-reuse_detected (rotate_refresh seen db first).1 second jti
      (revoked "rotated" first.now r.old) again
      (find-Rotated seen db first jti row (rotate_refresh seen db first).1 loaded r)
      (unfold revoked in refl)

revoke_loaded-again :
    (db : Database) (jti : Uuid) (now : Timestamp) (old : RefreshToken)
    → find jti_of jti db.refresh_tokens ≡ some old
    → revoke_loaded db jti "rotated" now (find jti_of jti db.refresh_tokens)
      ≡ ok (set_row jti_of jti (revoked "rotated" now old) db.refresh_tokens)
unfolding revoke_loaded
revoke_loaded-again db jti now old found = rw found refl

-- The row is loaded without a lock: when two rotations of one token have loaded the same store, and
-- the first of them gave a new token, the second gives another one all the same, if it
-- runs at the same moment with an unused jti.
pub concurrent_rotations_both_succeed :
    (db : Database) (first second : TokenRequest) (jti answer : Uuid)
    → first.presented ≡ some jti
    → second.presented ≡ some jti
    → (rotate_refresh db db first).0 ≡ ok answer
    → second.now ≡ first.now
    → any
        (λ (o : RefreshToken). o.jti == second.fresh_jti)
        (rotate_refresh db db first).1.refresh_tokens
      ≡ false
    → (rotate_refresh db (rotate_refresh db db first).1 second).0 ≡ ok second.fresh_jti
unfolding rotate_live
concurrent_rotations_both_succeed db first second jti answer presented again h at_once unused =
    let (row, loaded, live, r) = rotate-Rotated db db first jti answer presented h in
    let saved = (rotate_refresh db db first).1 in
    let gone = revoked "rotated" first.now r.old in
    let key = key-find jti_of jti db.refresh_tokens row loaded in
    let there : find jti_of row.jti saved.refresh_tokens ≡ some gone =
      subst (λ k. find jti_of k saved.refresh_tokens ≡ some gone) (sym key)
        (find-Rotated db db first jti row saved loaded r) in
    let fresh : any (λ (o : RefreshToken). o.jti == second.fresh_jti)
          (set_row jti_of row.jti (revoked "rotated" second.now gone) saved.refresh_tokens)
        ≡ false =
      any-set_row jti_of second.fresh_jti row.jti gone (revoked "rotated" second.now gone)
        saved.refresh_tokens there (unfold revoked in refl)
      ∙ unused in
    let timely : leb row.expires_at second.now ≡ false =
      subst (λ n. leb row.expires_at n ≡ false) (sym at_once) r.unexpired in
    rw
      (
        rotate-unused db saved second jti row again loaded live,
        timely,
        r.active,
        revoke_loaded-again saved row.jti second.now gone there,
        fresh,
      )
      refl
