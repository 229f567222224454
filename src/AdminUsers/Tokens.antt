-- ===== src/AdminUsers/Tokens.antt =====
-- What a deactivation does to the user's row and to the refresh tokens.
use trustedoss_portal.Prelude.{
  Bool, true, false, not, Option, none, some, List, [], ◌∷◌, if◌then◌else◌, is_some, ◌&&◌, Uuid,
  Timestamp, ok, commit-eq-ok, any, Bool-cases, find, key-find, arith, select, find-set_row_self,
  inl, inr, ◌≡◌, refl, ap,
}
use trustedoss_portal.Model.{RefreshToken, User, Database}
use trustedoss_portal.AdminUsers.Rows.{user_id_of, apply_change, update_user}
use trustedoss_portal.AdminUsers.{
  revoke, revoke_live, was_live, deactivated, set_active, Activation, check_deactivate,
  deactivate_user,
}
use trustedoss_portal.AdminUsers.Writes.{update_user-ok, check_deactivate-ok}

-- Read as live, and live.
abbrev pub is_left : Uuid → List RefreshToken → RefreshToken → Bool
is_left u seen t = was_live u seen t.id && not (is_some t.revoked_at)

not_left-revoke :
    (u : Uuid) (now : Timestamp) (seen : List RefreshToken) (t : RefreshToken)
    → is_left u seen (if was_live u seen t.id then revoke now t else t) ≡ false
unfolding revoke
not_left-revoke u now seen t = elim (Bool-cases (was_live u seen t.id)) [
  | inl read ↦ rw read (ground arith)
  | inr unread ↦ rw unread (rw unread refl)
]

revoke_live-any :
    (u : Uuid) (now : Timestamp) (seen tokens : List RefreshToken)
    → any (is_left u seen) (revoke_live u now seen tokens) ≡ false
revoke_live-any u now seen [] = refl
revoke_live-any u now seen (t ∷ tokens) =
    rw (not_left-revoke u now seen t) (revoke_live-any u now seen tokens)

abbrev pub holds_inactive : Option User → Bool
holds_inactive none = false
holds_inactive (some u) = not u.is_active

active_deactivated :
    (seen db saved : Database) (req : Activation) (user : User)
    → check_deactivate seen db req ≡ ok saved
    → find user_id_of req.user_id seen.users ≡ some user
    → user.is_active ≡ true
    → (users : List User) × (update_user db req.trigger_view req.user_id (set_active false req.now)
        ≡ ok users)
      × (saved ≡ deactivated seen db req users)
active_deactivated seen db saved req user passed found on =
    let (loaded, here, outcome) = check_deactivate-ok seen db req saved passed in
    let same : loaded ≡ user = cc (here, found) in
    elim outcome [
      | inl (off, _) ↦ absurd (cc (off, on, same))
      | inr (_, users, flushed, wrote) ↦ (users, flushed, wrote)
    ]

update_user-inactive :
    (db : Database) (req : Activation) (users : List User)
    → update_user db req.trigger_view req.user_id (set_active false req.now) ≡ ok users
    → holds_inactive (find user_id_of req.user_id users) ≡ true
unfolding apply_change
update_user-inactive db req users flushed =
    let (old, found, _, written) =
      update_user-ok db req.trigger_view req.user_id (set_active false req.now) users flushed in
    let new = apply_change (set_active false req.now) old in
    rw
      (
        written,
        find-set_row_self user_id_of req.user_id old new db.users found
            (key-find user_id_of req.user_id db.users old found),
      )
      refl

id-revoke :
    (b : Bool) (now : Timestamp) (t : RefreshToken) → (if b then revoke now t else t).id ≡ t.id
unfolding revoke
id-revoke true now t = refl
id-revoke false now t = refl

revoke_live-others :
    (u : Uuid) (now : Timestamp) (seen tokens : List RefreshToken)
    → select (λ (t : RefreshToken). not (was_live u seen t.id)) (revoke_live u now seen tokens)
      ≡ select (λ (t : RefreshToken). not (was_live u seen t.id)) tokens
revoke_live-others u now seen [] = refl
revoke_live-others u now seen (t ∷ tokens) =
    rw (id-revoke (was_live u seen t.id) now t) (elim (Bool-cases (was_live u seen t.id)) [
      | inl read ↦ rw read (revoke_live-others u now seen tokens)
      | inr unread ↦ rw unread (ap (λ rest. t ∷ rest) (revoke_live-others u now seen tokens))
    ])

-- Once a user that the request loaded as active has been deactivated, the user's row is inactive, no
-- refresh token of the user that the request read as live is live, and every token that it did not
-- read so is as it was.
pub deactivate_user-tokens :
    (seen db saved : Database) (req : Activation) (user : User)
    → (deactivate_user seen db req).0 ≡ ok saved
    → find user_id_of req.user_id seen.users ≡ some user
    → user.is_active ≡ true
    → (any (is_left req.user_id seen.refresh_tokens) (deactivate_user seen db req).1.refresh_tokens
        ≡ false)
      × (holds_inactive (find user_id_of req.user_id (deactivate_user seen db req).1.users) ≡ true)
      × (select
            (λ (t : RefreshToken). not (was_live req.user_id seen.refresh_tokens t.id))
            (deactivate_user seen db req).1.refresh_tokens
          ≡ select
              (λ (t : RefreshToken). not (was_live req.user_id seen.refresh_tokens t.id))
              db.refresh_tokens)
unfolding deactivate_user
deactivate_user-tokens seen db saved req user h found on =
    let (passed, stored) = commit-eq-ok (check_deactivate seen db req) (λ d. d) db h in
    let (users, flushed, written) = active_deactivated seen db saved req user passed found on in
    rw (stored, written)
      (unfold deactivated in
        (
          revoke_live-any req.user_id req.now seen.refresh_tokens db.refresh_tokens,
          update_user-inactive db req users flushed,
          revoke_live-others req.user_id req.now seen.refresh_tokens db.refresh_tokens,
        ))
