-- ===== src/Sessions/Deactivated.antt =====
-- The sessions of a user that an admin has deactivated.
use trustedoss_portal.Prelude.{
  Bool, true, false, not, ◌||◌, List, some, [], ◌∷◌, ◌==◌, is_some, Uuid, any, Bool-cases, Result,
  ok, err, is_ok, find, arith, inl, inr, Option, none, ◌≡◌, refl,
}
use mathlib.Core.Path.{subst}
use trustedoss_portal.Model.{User, RefreshToken, Database}
use trustedoss_portal.Sessions.{
  AuthError, refresh_reuse_detected, jti_of, user_id_of, is_active_user, TokenRequest,
  rotate_refresh,
}
use trustedoss_portal.Sessions.SingleUse.{used-reuse_detected}
use trustedoss_portal.Sessions.Rotation.{rotate-Rotated}
use trustedoss_portal.AdminUsers.{was_live, Activation, deactivate_user}
use trustedoss_portal.AdminUsers.Tokens.{is_left, holds_inactive, deactivate_user-tokens}

abbrev pub is_reuse : Result AuthError Uuid → Bool
is_reuse (err refresh_reuse_detected) = true
is_reuse _ = false

ended_token :
    (u : Uuid) (seen : List RefreshToken) (x t : RefreshToken)
    → x ≡ t
    → is_left u seen x ≡ false
    → (not (was_live u seen t.id) || is_some t.revoked_at) ≡ true
ended_token u seen x t same gone =
    let there : is_left u seen t ≡ false = subst (λ z. is_left u seen z ≡ false) same gone in
    ground arith

found_ended :
    (u jti : Uuid) (seen tokens : List RefreshToken) (t : RefreshToken)
    → any (is_left u seen) tokens ≡ false
    → find jti_of jti tokens ≡ some t
    → (not (was_live u seen t.id) || is_some t.revoked_at) ≡ true
found_ended u jti seen [] t gone found = absurd (cc found)
found_ended u jti seen (x ∷ tokens) t gone found = elim (Bool-cases (x.jti == jti)) [
  | inl here ↦ ended_token u seen x t (cc (rw here at found)) (head_false (is_left u seen x) _ gone)
  | inr other ↦
      found_ended u jti seen tokens t (tail_false (is_left u seen x) _ gone) (rw other at found)
]
  where
    head_false : (a b : Bool) → (a || b) ≡ false → a ≡ false
    head_false a b h = ground arith

    tail_false : (a b : Bool) → (a || b) ≡ false → b ≡ false
    tail_false a b h = ground arith

inactive_user : (o : Option User) → holds_inactive o ≡ true → is_active_user o ≡ false
inactive_user none h = refl
inactive_user (some u) h = ground arith

inactive_fails :
    (db : Database) (req : TokenRequest) (jti u : Uuid) (t : RefreshToken)
    (r : Result AuthError Uuid)
    → (rotate_refresh db db req).0 ≡ r
    → req.presented ≡ some jti
    → find jti_of jti db.refresh_tokens ≡ some t
    → t.user_id ≡ u
    → holds_inactive (find user_id_of u db.users) ≡ true
    → is_ok r ≡ false
inactive_fails db req jti u t (err e) h presented loaded mine off = refl
inactive_fails db req jti u t (ok answer) h presented loaded mine off =
    let (row, there, _, rotated) = rotate-Rotated db db req jti answer presented h in
    let same : row ≡ t = cc (there, loaded) in
    let on : is_active_user (find user_id_of t.user_id db.users) ≡ true =
      subst (λ (z : RefreshToken). is_active_user (find user_id_of z.user_id db.users) ≡ true) same
        rotated.active in
    absurd (cc (inactive_user (find user_id_of u db.users) off, on, mine))

reuse_of :
    (db : Database) (req : TokenRequest) (jti : Uuid) (t : RefreshToken) (read : Bool)
    → req.presented ≡ some jti
    → find jti_of jti db.refresh_tokens ≡ some t
    → (not read || is_some t.revoked_at) ≡ true
    → (not read || is_reuse (rotate_refresh db db req).0) ≡ true
reuse_of db req jti t false presented loaded ended = refl
reuse_of db req jti t true presented loaded ended =
    rw (used-reuse_detected db req jti t presented loaded ended) refl

-- After an admin has deactivated a user that was loaded as active, presenting a refresh token of
-- that user that is in the store gives no new token; and if the deactivation has read the token as
-- live, the answer is that of a reuse. A token that another transaction has added after that
-- read is refused only as long as the user stays inactive.
pub deactivated_cannot_rotate :
    (seen db saved : Database) (act : Activation) (user : User) (req : TokenRequest) (jti : Uuid)
    (t : RefreshToken)
    → (deactivate_user seen db act).0 ≡ ok saved
    → find user_id_of act.user_id seen.users ≡ some user
    → user.is_active ≡ true
    → req.presented ≡ some jti
    → find jti_of jti (deactivate_user seen db act).1.refresh_tokens ≡ some t
    → t.user_id ≡ act.user_id
    → (is_ok (rotate_refresh (deactivate_user seen db act).1 (deactivate_user seen db act).1 req).0
        ≡ false)
      × ((not (was_live act.user_id seen.refresh_tokens t.id)
            || is_reuse
                (rotate_refresh
                  (deactivate_user seen db act).1
                  (deactivate_user seen db act).1
                  req).0)
          ≡ true)
deactivated_cannot_rotate seen db saved act user req jti t h found on presented loaded mine =
    let left = (deactivate_user seen db act).1 in
    let (ended, off, _) = deactivate_user-tokens seen db saved act user h found on in
    (
      inactive_fails left req jti act.user_id t (rotate_refresh left left req).0 refl presented
          loaded mine off,
      reuse_of left req jti t (was_live act.user_id seen.refresh_tokens t.id) presented loaded
          (found_ended act.user_id jti seen.refresh_tokens left.refresh_tokens t ended loaded),
    )
