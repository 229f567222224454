-- ===== src/Sessions/Rotation.antt =====
-- What a rotation did when it gave a new token.
use trustedoss_portal.Prelude.{
  suc, String, true, false, Option, none, some, List, [], ◌∷◌, length, leb, ◌==◌, is_some, Uuid,
  Timestamp, any, Bool-cases, Option-cases, Result, ok, err, find, set_row, inl, inr, ◌≡◌, ◌≢◌,
  refl, ap, ◌∙◌,
}
use trustedoss_portal.Model.{RefreshToken, Database}
use trustedoss_portal.Sessions.{
  AuthError, jti_of, user_id_of, revoked, revoke_chain, TokenRequest, child_of, with_tokens,
  revoke_loaded, reuse, expire, mint, is_active_user, rotate_live, rotate_row, rotate_presented,
  rotate_refresh,
}

mint-ok :
    (db : Database) (req : TokenRequest) (t : RefreshToken)
    (r : Result AuthError (List RefreshToken)) (answer : Uuid)
    → (mint db req t r).0 ≡ ok answer
    → (tokens : List RefreshToken) × (r ≡ ok tokens)
      × (any (λ (o : RefreshToken). o.jti == req.fresh_jti) tokens ≡ false)
      × ((mint db req t r).1 ≡ with_tokens db (child_of req t ∷ tokens))
mint-ok db req t (err e) answer h = absurd (cc h)
mint-ok db req t (ok tokens) answer h =
    elim (Bool-cases (any (λ (o : RefreshToken). o.jti == req.fresh_jti) tokens)) [
      | inl taken ↦ absurd (cc (rw taken at h))
      | inr fresh ↦ (tokens, refl, fresh, rw fresh refl)
    ]

revoke_loaded-ok :
    (db : Database) (jti : Uuid) (reason : String) (now : Timestamp) (o : Option RefreshToken)
    (tokens : List RefreshToken)
    → revoke_loaded db jti reason now o ≡ ok tokens
    → (old : RefreshToken) × (o ≡ some old)
      × (tokens ≡ set_row jti_of jti (revoked reason now old) db.refresh_tokens)
unfolding revoke_loaded
revoke_loaded-ok db jti reason now none tokens h = absurd (cc h)
revoke_loaded-ok db jti reason now (some old) tokens h = (old, refl, cc h)

-- The parts of the rotation of a row that gave a new token.
pub record Rotated (seen db : Database) (req : TokenRequest) (row : RefreshToken) (saved : Database)
    : Type 0 where
  pub unexpired : leb row.expires_at req.now ≡ false
  pub active : is_active_user (find user_id_of row.user_id seen.users) ≡ true
  pub old : RefreshToken
  pub present : find jti_of row.jti db.refresh_tokens ≡ some old
  pub fresh :
      any
        (λ (o : RefreshToken). o.jti == req.fresh_jti)
        (set_row jti_of row.jti (revoked "rotated" req.now old) db.refresh_tokens)
      ≡ false
  pub written :
      saved
      ≡ with_tokens db (
          child_of req row
          ∷ set_row jti_of row.jti (revoked "rotated" req.now old) db.refresh_tokens)

expire-not_ok :
    (db : Database) (r : Result AuthError (List RefreshToken)) (answer : Uuid)
    → (expire db r).0 ≢ ok answer
expire-not_ok db (err e) answer h = cc h
expire-not_ok db (ok tokens) answer h = cc h

rotate_live-Rotated :
    (seen db : Database) (req : TokenRequest) (row : RefreshToken) (answer : Uuid)
    → (rotate_live seen db req row).0 ≡ ok answer
    → Rotated seen db req row (rotate_live seen db req row).1
unfolding rotate_live
rotate_live-Rotated seen db req row answer h =
    let rotated =
      revoke_loaded db row.jti "rotated" req.now (find jti_of row.jti db.refresh_tokens) in
    elim (Bool-cases (leb row.expires_at req.now)) [
      | inl expired ↦ absurd (expire-not_ok db _ answer (rw expired at h))
      | inr unexpired ↦
          elim (Bool-cases (is_active_user (find user_id_of row.user_id seen.users))) [
            | inr inactive ↦ absurd (cc (rw (unexpired, inactive) at h))
            | inl active ↦
                let (tokens, passed, fresh, saved) =
                  mint-ok db req row rotated answer (rw (unexpired, active) at h) in
                let (old, present, written) =
                  revoke_loaded-ok db row.jti "rotated" req.now
                    (find jti_of row.jti db.refresh_tokens) tokens passed in
                rw (unexpired, active)
                  (record {
                    unexpired = unexpired;
                    active = active;
                    old = old;
                    present = present;
                    fresh = rw written at fresh;
                    written = rw written at saved;
                  })
          ]
    ]

reuse-not_ok :
    (db : Database) (o : Option (List RefreshToken)) (answer : Uuid) → (reuse db o).0 ≢ ok answer
reuse-not_ok db none answer h = cc h
reuse-not_ok db (some tokens) answer h = cc h

pub rotate-at :
    (seen db : Database) (req : TokenRequest) (jti : Uuid)
    → req.presented ≡ some jti
    → rotate_refresh seen db req ≡ rotate_row seen db req (find jti_of jti seen.refresh_tokens)
unfolding rotate_refresh rotate_presented
rotate-at seen db req jti presented = ap (rotate_presented seen db req) presented

pub rotate-unused :
    (seen db : Database) (req : TokenRequest) (jti : Uuid) (row : RefreshToken)
    → req.presented ≡ some jti
    → find jti_of jti seen.refresh_tokens ≡ some row
    → is_some row.revoked_at ≡ false
    → rotate_refresh seen db req ≡ rotate_live seen db req row
unfolding rotate_row
rotate-unused seen db req jti row presented loaded unused =
    rotate-at seen db req jti presented ∙ rw (loaded, unused) refl

pub rotate-used :
    (seen db : Database) (req : TokenRequest) (jti : Uuid) (row : RefreshToken)
    → req.presented ≡ some jti
    → find jti_of jti seen.refresh_tokens ≡ some row
    → is_some row.revoked_at ≡ true
    → rotate_refresh seen db req
      ≡ reuse db (
          revoke_chain
            (suc (length db.refresh_tokens))
            []
            (some row.jti)
            "reuse_detected"
            req.now
            db.refresh_tokens)
unfolding rotate_row
rotate-used seen db req jti row presented loaded used =
    rotate-at seen db req jti presented ∙ rw (loaded, used) refl

-- A rotation that gave a new token found an unrevoked row.
pub rotate-Rotated :
    (seen db : Database) (req : TokenRequest) (jti answer : Uuid)
    → req.presented ≡ some jti
    → (rotate_refresh seen db req).0 ≡ ok answer
    → (row : RefreshToken) × (find jti_of jti seen.refresh_tokens ≡ some row)
      × (is_some row.revoked_at ≡ false)
      × Rotated seen db req row (rotate_refresh seen db req).1
unfolding rotate_row
rotate-Rotated seen db req jti answer presented h =
    elim (Option-cases (find jti_of jti seen.refresh_tokens)) [
      | inl unknown ↦ absurd (cc (rw (rotate-at seen db req jti presented, unknown) at h))
      | inr (row, loaded) ↦ elim (Bool-cases (is_some row.revoked_at)) [
        | inl used ↦ absurd (
            reuse-not_ok db _ answer
              (rw (rotate-used seen db req jti row presented loaded used) at h))
        | inr unused ↦
            let e = rotate-unused seen db req jti row presented loaded unused in
            (row, loaded, unused, rw e (rotate_live-Rotated seen db req row answer (rw e at h)))
      ]
    ]
