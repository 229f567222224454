-- ===== src/Sessions/Reuse.antt =====
-- What the detection of a reuse revokes: nothing that is not revoked already.
use trustedoss_portal.Prelude.{
  ℕ, zero, suc, String, Bool, true, false, Option, none, some, List, [], ◌∷◌, length, ◌==◌, ==_iff,
  is_some, Uuid, Timestamp, any, contains, All, Bool-cases, Option-cases, err, find, set_row,
  key-find, find-set_row_self, find-set_row_ne, find-All, set_row-All, inl, inr, ◌≡◌, refl, sym,
}
use mathlib.Core.Path.{subst, ap₂}
use trustedoss_portal.Model.{RefreshToken, Database}
use trustedoss_portal.Sessions.{
  refresh_reuse_detected, jti_of, revoked, revoke_row, revoke_chain, TokenRequest, reuse,
  rotate_refresh,
}
use trustedoss_portal.Sessions.SingleUse.{absent-ne, used-reuse_detected}
use trustedoss_portal.Sessions.Rotation.{rotate-used}

-- The row of this jti is in the table, and revoked.
abbrev pub is_revoked : Option RefreshToken → Bool
is_revoked none = false
is_revoked (some t) = is_some t.revoked_at

abbrev pub parent_revoked : List RefreshToken → Option Uuid → Bool
parent_revoked tokens none = true
parent_revoked tokens (some p) = is_revoked (find jti_of p tokens)

-- Every token that was rotated from another has a revoked parent.
pub record IsChained (tokens : List RefreshToken) : Type 0 where
  pub all : All (λ (t : RefreshToken). parent_revoked tokens t.parent_jti ≡ true) tokens

revoked-keeps :
    (tokens : List RefreshToken) (k : Uuid) (reason : String) (now : Timestamp) (old : RefreshToken)
    (at : Option Uuid)
    → find jti_of k tokens ≡ some old
    → parent_revoked tokens at ≡ true
    → parent_revoked (set_row jti_of k (revoked reason now old) tokens) at ≡ true
unfolding revoked
revoked-keeps tokens k reason now old none found h = refl
revoked-keeps tokens k reason now old (some p) found h =
    let key = key-find jti_of k tokens old found in
    elim (Bool-cases (k == p)) [
      | inl same ↦
          subst
            (λ j.
              is_revoked (find jti_of j (set_row jti_of k (revoked reason now old) tokens)) ≡ true)
            ((==_iff k p).0 same)
            (rw (find-set_row_self jti_of k old (revoked reason now old) tokens found key) refl)
      | inr differs ↦ rw (find-set_row_ne jti_of k p (revoked reason now old) tokens key differs) h
    ]

All-weaken :
    (P Q : RefreshToken → Type 0) (tokens : List RefreshToken)
    → ((t : RefreshToken) → P t → Q t)
    → All P tokens
    → All Q tokens
All-weaken P Q [] f h = tt
All-weaken P Q (t ∷ tokens) f (ht, h) = (f t ht, All-weaken P Q tokens f h)

-- Revoking a row keeps the chain.
pub revoke-IsChained :
    (tokens : List RefreshToken) (k : Uuid) (reason : String) (now : Timestamp) (old : RefreshToken)
    → find jti_of k tokens ≡ some old
    → IsChained tokens
    → IsChained (set_row jti_of k (revoked reason now old) tokens)
unfolding revoked
revoke-IsChained tokens k reason now old found chained =
    let new = revoked reason now old in
    let Kept : RefreshToken → Type 0 =
      λ t. parent_revoked (set_row jti_of k new tokens) t.parent_jti ≡ true in
    let kept : All Kept tokens =
      All-weaken (λ t. parent_revoked tokens t.parent_jti ≡ true) Kept tokens
        (λ t h. revoked-keeps tokens k reason now old t.parent_jti found h) chained.all in
    record {
      all =
          set_row-All jti_of Kept k new tokens (find-All jti_of Kept k old tokens found kept) kept;
    }

parent_revoked-insert :
    (fresh : RefreshToken) (tokens : List RefreshToken) (at : Option Uuid)
    → any (λ (o : RefreshToken). o.jti == fresh.jti) tokens ≡ false
    → parent_revoked tokens at ≡ true
    → parent_revoked (fresh ∷ tokens) at ≡ true
parent_revoked-insert fresh tokens none absent h = refl
parent_revoked-insert fresh tokens (some p) absent h = elim (Option-cases (find jti_of p tokens)) [
  | inl missing ↦ absurd (cc (rw missing at h))
  | inr (t, found) ↦ rw (absent-ne fresh.jti p tokens t absent found) h
]

-- A new token whose parent is revoked keeps the chain.
pub insert-IsChained :
    (fresh : RefreshToken) (tokens : List RefreshToken)
    → any (λ (o : RefreshToken). o.jti == fresh.jti) tokens ≡ false
    → parent_revoked tokens fresh.parent_jti ≡ true
    → IsChained tokens
    → IsChained (fresh ∷ tokens)
insert-IsChained fresh tokens absent parent chained = record {
  all = (
    parent_revoked-insert fresh tokens fresh.parent_jti absent parent,
    All-weaken (λ t. parent_revoked tokens t.parent_jti ≡ true)
        (λ t. parent_revoked (fresh ∷ tokens) t.parent_jti ≡ true) tokens
        (λ t h. parent_revoked-insert fresh tokens t.parent_jti absent h) chained.all,
  );
}

revoke_row-same :
    (reason : String) (now : Timestamp) (t : RefreshToken) (tokens : List RefreshToken)
    → is_some t.revoked_at ≡ true
    → revoke_row reason now t tokens ≡ tokens
revoke_row-same reason now t tokens h = rw h refl

-- From a revoked row the walk meets revoked rows only.
walk_changes_nothing :
    (fuel : ℕ) (seen : List Uuid) (at : Option Uuid) (reason : String) (now : Timestamp)
    (tokens out : List RefreshToken)
    → IsChained tokens
    → parent_revoked tokens at ≡ true
    → revoke_chain fuel seen at reason now tokens ≡ some out
    → out ≡ tokens
unfolding revoke_chain
walk_changes_nothing zero seen none reason now tokens out chained h e = cc e
walk_changes_nothing (suc fuel) seen none reason now tokens out chained h e = cc e
walk_changes_nothing zero seen (some jti) reason now tokens out chained h e = absurd (cc e)
walk_changes_nothing (suc fuel) seen (some jti) reason now tokens out chained h e =
    elim (Bool-cases (contains jti seen)) [
      | inl met ↦ cc (rw met at e)
      | inr fresh ↦ elim (Option-cases (find jti_of jti tokens)) [
        | inl missing ↦ cc (rw (fresh, missing) at e)
        | inr (t, found) ↦
            let used : is_some t.revoked_at ≡ true = rw found at h in
            let parent =
              find-All jti_of (λ t. parent_revoked tokens t.parent_jti ≡ true) jti t tokens found
                chained.all in
            walk_changes_nothing fuel (jti ∷ seen) t.parent_jti reason now tokens out chained parent
              (rw (fresh, found, revoke_row-same reason now t tokens used) at e)
      ]
    ]

reuse_same :
    (db : Database) (o : Option (List RefreshToken))
    → ((out : List RefreshToken) → o ≡ some out → out ≡ db.refresh_tokens)
    → (reuse db o).1 ≡ db
reuse_same db none h = refl
reuse_same db (some tokens) h = rw (h tokens refl) refl

-- Detecting a reuse revokes nothing: in a store where every rotated token's parent is revoked,
-- presenting a revoked token is answered as a reuse and leaves the store as it was, the token that
-- replaced the reused one included.
pub reuse_revokes_nothing :
    (db : Database) (req : TokenRequest) (jti : Uuid) (row : RefreshToken)
    → IsChained db.refresh_tokens
    → req.presented ≡ some jti
    → find jti_of jti db.refresh_tokens ≡ some row
    → is_some row.revoked_at ≡ true
    → rotate_refresh db db req ≡ (err refresh_reuse_detected, db)
reuse_revokes_nothing db req jti row chained presented loaded used =
    let key = key-find jti_of jti db.refresh_tokens row loaded in
    let at : parent_revoked db.refresh_tokens (some row.jti) ≡ true =
      subst (λ k. is_revoked (find jti_of k db.refresh_tokens) ≡ true) (sym key) (rw loaded used) in
    ap₂ (λ a b. (a, b)) (used-reuse_detected db req jti row presented loaded used)
      (rw (rotate-used db db req jti row presented loaded used) (
        reuse_same db _ (λ out e.
          walk_changes_nothing (suc (length db.refresh_tokens)) [] (some row.jti) "reuse_detected"
            req.now db.refresh_tokens out chained at e)))
