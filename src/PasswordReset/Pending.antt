-- ===== src/PasswordReset/Pending.antt =====
-- One pending token for each user.
use trustedoss_portal.Prelude.{
  Bool, true, false, Option, none, some, List, [], ◌∷◌, count_if, ==_refl, str_eq, if◌then◌else◌,
  Uuid, Timestamp, Result, bit, Bool-cases, arith, inl, inr, ok, err, find_by, ◌≡◌, refl, ap,
}
use mathlib.Core.Path.{subst}
use trustedoss_portal.Model.{User, PasswordResetToken, Database}
use trustedoss_portal.PasswordReset.{
  is_pending_of, is_recent, ResetError, one_or_none, ResetRequest, issued, invalidated,
  invalidate_live, new_reset, issue, answer_request, request_for, request_password_reset,
}

not_pending-invalidated :
    (u : Uuid) (now : Timestamp) (t : PasswordResetToken)
    → is_pending_of u now (if is_pending_of u now t then invalidated now t else t) ≡ false
unfolding invalidated
not_pending-invalidated u now t = ground arith

none_pending :
    (u : Uuid) (now : Timestamp) (tokens : List PasswordResetToken)
    → count_if (is_pending_of u now) (invalidate_live u now tokens) ≡ 0
none_pending u now [] = refl
none_pending u now (t ∷ tokens) =
    omega (arith, none_pending u now tokens, ap bit (not_pending-invalidated u now t))

issue_pending :
    (db : Database) (req : ResetRequest) (user : User) (recent : Bool) (id : Uuid)
    → (issue db req user recent).0 ≡ issued id
    → count_if (is_pending_of id req.now) (issue db req user recent).1.password_reset_tokens ≡ 1
issue_pending db req user true id h = absurd (cc h)
issue_pending db req user false id h =
    let same : user.id ≡ id = cc h in
    let fresh : is_pending_of user.id req.now (new_reset req user) ≡ true =
      rw (==_refl user.id) (ground arith) in
    let tokens = (issue db req user false).1.password_reset_tokens in
    subst (λ u. count_if (is_pending_of u req.now) tokens ≡ 1) same
      (omega (arith, none_pending user.id req.now db.password_reset_tokens, ap bit fresh))

answer_pending :
    (db : Database) (req : ResetRequest) (user : User) (r : Result ResetError Bool) (id : Uuid)
    → (answer_request db req user r).0 ≡ ok (issued id)
    → count_if (is_pending_of id req.now) (answer_request db req user r).1.password_reset_tokens ≡ 1
answer_pending db req user (err e) id h = absurd (cc h)
answer_pending db req user (ok recent) id h = issue_pending db req user recent id (cc h)

request_for-pending :
    (db : Database) (req : ResetRequest) (o : Option User) (id : Uuid)
    → (request_for db req o).0 ≡ ok (issued id)
    → count_if (is_pending_of id req.now) (request_for db req o).1.password_reset_tokens ≡ 1
unfolding request_for
request_for-pending db req none id h = absurd (cc h)
request_for-pending db req (some user) id h = elim (Bool-cases user.is_active) [
  | inr inactive ↦ absurd (cc (rw inactive at h))
  | inl active ↦ rw active (
      answer_pending db req user
        (one_or_none (count_if (is_recent user.id req.now req.cooldown) db.password_reset_tokens))
        id (rw active at h))
]

-- When a request issues a token, the user has exactly one pending token afterwards: the new one.
pub request_password_reset-pending :
    (db : Database) (req : ResetRequest) (id : Uuid)
    → (request_password_reset db req).0 ≡ ok (issued id)
    → count_if (is_pending_of id req.now) (request_password_reset db req).1.password_reset_tokens
      ≡ 1
unfolding request_password_reset
request_password_reset-pending db req id h =
    request_for-pending db req (find_by (λ u. str_eq u.email req.email) db.users) id h
