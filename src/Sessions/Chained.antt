-- ===== src/Sessions/Chained.antt =====
-- The chain of rotated tokens over every run of logins, rotations and logouts.
use trustedoss_portal.Prelude.{
  ℕ, zero, suc, String, Option, none, some, List, [], ◌∷◌, length, leb, ◌==◌, is_some, Uuid,
  Timestamp, any, contains, Bool-cases, Option-cases, Result, ok, find, set_row, key-find,
  find-set_row_self, inl, inr, ◌≡◌, refl, sym,
}
use mathlib.Core.Path.{subst}
use trustedoss_portal.Model.{User, RefreshToken, Database}
use trustedoss_portal.Sessions.{
  AuthError, jti_of, user_id_of, revoked, revoke_row, revoke_chain, TokenRequest, child_of,
  revoke_loaded, reuse, expire, mint, is_active_user, rotate_live, rotate_row, rotate_presented,
  rotate_refresh, revoke_found, revoke_refresh, root_token, issue_for, issue_token_pair, Request,
  login, rotate, logout, step, run,
}
use trustedoss_portal.Sessions.Reuse.{IsChained, revoke-IsChained, insert-IsChained}

same_chain : (tokens out : List RefreshToken) → tokens ≡ out → IsChained tokens → IsChained out
same_chain tokens out e chained = subst IsChained e chained

revoke_row-IsChained :
    (reason : String) (now : Timestamp) (t : RefreshToken) (tokens : List RefreshToken) (jti : Uuid)
    → find jti_of jti tokens ≡ some t
    → IsChained tokens
    → IsChained (revoke_row reason now t tokens)
revoke_row-IsChained reason now t tokens jti found chained =
    elim (Bool-cases (is_some t.revoked_at)) [
      | inl already ↦ rw already chained
      | inr live ↦
          let key = key-find jti_of jti tokens t found in
          rw live (
            revoke-IsChained tokens t.jti reason now t
              (subst (λ k. find jti_of k tokens ≡ some t) (sym key) found) chained)
    ]

walk-IsChained :
    (fuel : ℕ) (seen : List Uuid) (at : Option Uuid) (reason : String) (now : Timestamp)
    (tokens out : List RefreshToken)
    → IsChained tokens
    → revoke_chain fuel seen at reason now tokens ≡ some out
    → IsChained out
unfolding revoke_chain
walk-IsChained zero seen none reason now tokens out chained e = same_chain tokens out (cc e) chained
walk-IsChained (suc fuel) seen none reason now tokens out chained e =
    same_chain tokens out (cc e) chained
walk-IsChained zero seen (some jti) reason now tokens out chained e = absurd (cc e)
walk-IsChained (suc fuel) seen (some jti) reason now tokens out chained e =
    elim (Bool-cases (contains jti seen)) [
      | inl met ↦ same_chain tokens out (cc (rw met at e)) chained
      | inr fresh ↦ elim (Option-cases (find jti_of jti tokens)) [
        | inl missing ↦ same_chain tokens out (cc (rw (fresh, missing) at e)) chained
        | inr (t, found) ↦
            walk-IsChained fuel (jti ∷ seen) t.parent_jti reason now
              (revoke_row reason now t tokens) out
              (revoke_row-IsChained reason now t tokens jti found chained) (rw (fresh, found) at e)
      ]
    ]

reuse-IsChained :
    (db : Database) (o : Option (List RefreshToken))
    → ((out : List RefreshToken) → o ≡ some out → IsChained out)
    → IsChained db.refresh_tokens
    → IsChained (reuse db o).1.refresh_tokens
reuse-IsChained db none h chained = chained
reuse-IsChained db (some tokens) h chained = h tokens refl

expire-IsChained :
    (db : Database) (jti : Uuid) (now : Timestamp)
    → IsChained db.refresh_tokens
    → IsChained
        (expire db
          (revoke_loaded db jti "expired" now (find jti_of jti db.refresh_tokens))).1.refresh_tokens
unfolding revoke_loaded
expire-IsChained db jti now chained = elim (Option-cases (find jti_of jti db.refresh_tokens)) [
  | inl missing ↦ rw missing chained
  | inr (old, found) ↦
      rw found (revoke-IsChained db.refresh_tokens jti "expired" now old found chained)
]

abbrev tokens_after : Result AuthError Uuid × Database → List RefreshToken
tokens_after (answer, db) = db.refresh_tokens

minted-IsChained :
    (db : Database) (req : TokenRequest) (row old : RefreshToken)
    → find jti_of row.jti db.refresh_tokens ≡ some old
    → IsChained db.refresh_tokens
    → IsChained (
        tokens_after (
          mint db req row
            (ok (set_row jti_of row.jti (revoked "rotated" req.now old) db.refresh_tokens))))
unfolding revoked
minted-IsChained db req row old found chained =
    let gone = revoked "rotated" req.now old in
    let tokens = set_row jti_of row.jti gone db.refresh_tokens in
    let key = key-find jti_of row.jti db.refresh_tokens old found in
    elim (Bool-cases (any (λ (o : RefreshToken). o.jti == req.fresh_jti) tokens)) [
      | inl taken ↦ rw taken chained
      | inr fresh ↦ rw fresh (
          insert-IsChained (child_of req row) tokens fresh
            (rw (find-set_row_self jti_of row.jti old gone db.refresh_tokens found key) refl)
            (revoke-IsChained db.refresh_tokens row.jti "rotated" req.now old found chained))
    ]

mint-IsChained :
    (db : Database) (req : TokenRequest) (row : RefreshToken)
    → IsChained db.refresh_tokens
    → IsChained (
        tokens_after (
          mint db req row
            (revoke_loaded db row.jti "rotated" req.now (find jti_of row.jti db.refresh_tokens))))
unfolding revoke_loaded
mint-IsChained db req row chained = elim (Option-cases (find jti_of row.jti db.refresh_tokens)) [
  | inl missing ↦ rw missing chained
  | inr (old, found) ↦ rw found (minted-IsChained db req row old found chained)
]

rotate_live-IsChained :
    (seen db : Database) (req : TokenRequest) (row : RefreshToken)
    → IsChained db.refresh_tokens
    → IsChained (rotate_live seen db req row).1.refresh_tokens
unfolding rotate_live
rotate_live-IsChained seen db req row chained = elim (Bool-cases (leb row.expires_at req.now)) [
  | inl expired ↦ rw expired (expire-IsChained db row.jti req.now chained)
  | inr unexpired ↦
      rw unexpired (elim (Bool-cases (is_active_user (find user_id_of row.user_id seen.users))) [
        | inl active ↦ rw active (mint-IsChained db req row chained)
        | inr inactive ↦ rw inactive chained
      ])
]

rotate_row-IsChained :
    (seen db : Database) (req : TokenRequest) (o : Option RefreshToken)
    → IsChained db.refresh_tokens
    → IsChained (rotate_row seen db req o).1.refresh_tokens
unfolding rotate_row
rotate_row-IsChained seen db req none chained = chained
rotate_row-IsChained seen db req (some row) chained = elim (Bool-cases (is_some row.revoked_at)) [
  | inl used ↦ rw used (
      reuse-IsChained db _
        (λ out e.
          walk-IsChained (suc (length db.refresh_tokens)) [] (some row.jti) "reuse_detected" req.now
            db.refresh_tokens out chained e)
        chained)
  | inr unused ↦ rw unused (rotate_live-IsChained seen db req row chained)
]

presented-IsChained :
    (seen db : Database) (req : TokenRequest) (presented : Option Uuid)
    → IsChained db.refresh_tokens
    → IsChained (rotate_presented seen db req presented).1.refresh_tokens
unfolding rotate_presented
presented-IsChained seen db req none chained = chained
presented-IsChained seen db req (some jti) chained =
    rotate_row-IsChained seen db req (find jti_of jti seen.refresh_tokens) chained

rotate-IsChained :
    (seen db : Database) (req : TokenRequest)
    → IsChained db.refresh_tokens
    → IsChained (rotate_refresh seen db req).1.refresh_tokens
unfolding rotate_refresh
rotate-IsChained seen db req chained = presented-IsChained seen db req req.presented chained

logout-IsChained :
    (db : Database) (presented : Option Uuid) (now : Timestamp)
    → IsChained db.refresh_tokens
    → IsChained (revoke_refresh db presented now).refresh_tokens
unfolding revoke_refresh revoke_found
logout-IsChained db none now chained = chained
logout-IsChained db (some jti) now chained =
    elim (Option-cases (find jti_of jti db.refresh_tokens)) [
      | inl missing ↦ rw missing chained
      | inr (t, found) ↦
          rw found (revoke_row-IsChained "logout" now t db.refresh_tokens jti found chained)
    ]

login-IsChained :
    (db : Database) (req : TokenRequest) (o : Option User)
    → IsChained db.refresh_tokens
    → IsChained (issue_for db req o).1.refresh_tokens
unfolding issue_for
login-IsChained db req none chained = chained
login-IsChained db req (some u) chained =
    elim (Bool-cases (any (λ (o : RefreshToken). o.jti == req.fresh_jti) db.refresh_tokens)) [
      | inl taken ↦ rw taken chained
      | inr fresh ↦
          rw fresh (insert-IsChained (root_token u req) db.refresh_tokens fresh refl chained)
    ]

step-IsChained :
    (db : Database) (q : Request)
    → IsChained db.refresh_tokens
    → IsChained (step db q).refresh_tokens
unfolding step issue_token_pair
step-IsChained db (login user_id req) chained =
    login-IsChained db req (find user_id_of user_id db.users) chained
step-IsChained db (rotate seen req) chained = rotate-IsChained seen db req chained
step-IsChained db (logout presented now) chained = logout-IsChained db presented now chained

-- Every run of logins, rotations (each on whatever snapshot it loaded) and logouts keeps the
-- chain: every token that was rotated from another has a revoked parent in the table.
pub run-IsChained :
    (db : Database) (qs : List Request)
    → IsChained db.refresh_tokens
    → IsChained (run db qs).refresh_tokens
unfolding run
run-IsChained db [] chained = chained
run-IsChained db (q ∷ qs) chained = run-IsChained (step db q) qs (step-IsChained db q chained)
