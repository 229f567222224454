-- ===== src/Sessions/Chain.antt =====
-- The walk along a chain of tokens ends, and what it does to a chain that is revoked already.
use trustedoss_portal.Prelude.{
  ℕ, zero, suc, ◌≤◌, ◌<◌, String, true, false, not, Option, none, some, List, [], ◌∷◌, length, ◌==◌,
  ==_iff, ==_refl, is_some, Uuid, Timestamp, contains, count_if, Bool-cases, Option-cases, find,
  key-find, count_if-set_row, arith, inl, inr, ◌≡◌, refl, sym,
}
use mathlib.Core.Path.{subst}
use trustedoss_portal.Model.{RefreshToken}
use trustedoss_portal.Sessions.{jti_of, revoked, revoke_row, revoke_chain}

-- The rows that the walk has not met yet.
abbrev unseen : List Uuid → List RefreshToken → ℕ
unseen seen tokens = count_if (λ (t : RefreshToken). not (contains t.jti seen)) tokens

unseen_le :
    (jti : Uuid) (seen : List Uuid) (tokens : List RefreshToken)
    → unseen (jti ∷ seen) tokens ≤ unseen seen tokens
unseen_le jti seen [] = omega arith
unseen_le jti seen (t ∷ tokens) = ground (arith, unseen_le jti seen tokens)

key_met :
    (jti : Uuid) (seen : List Uuid) (t : RefreshToken)
    → (t.jti == jti) ≡ true
    → contains jti seen ≡ false
    → (not (contains t.jti (jti ∷ seen)) ≡ false) × (not (contains t.jti seen) ≡ true)
key_met jti seen t here fresh =
    let same = (==_iff t.jti jti).0 here in rw (same, ==_refl jti, fresh) (refl, refl)

unseen_lt :
    (jti : Uuid) (seen : List Uuid) (tokens : List RefreshToken) (t : RefreshToken)
    → find jti_of jti tokens ≡ some t
    → contains jti seen ≡ false
    → unseen (jti ∷ seen) tokens < unseen seen tokens
unseen_lt jti seen [] t found fresh = absurd (ground arith)
unseen_lt jti seen (u ∷ tokens) t found fresh = elim (Bool-cases (u.jti == jti)) [
  | inl here ↦
      let (gone, there) = key_met jti seen u here fresh in
      rw (gone, there) (omega (arith, unseen_le jti seen tokens))
  | inr other ↦
      let rest = unseen_lt jti seen tokens t (rw other at found) fresh in ground (arith, rest)
]

revoke_row-unseen :
    (seen : List Uuid) (reason : String) (now : Timestamp) (t : RefreshToken)
    (tokens : List RefreshToken)
    → find jti_of t.jti tokens ≡ some t
    → unseen seen (revoke_row reason now t tokens) ≡ unseen seen tokens
unfolding revoked
revoke_row-unseen seen reason now t tokens found = elim (Bool-cases (is_some t.revoked_at)) [
  | inl already ↦ rw already refl
  | inr live ↦ rw live (
      omega (
        arith,
        count_if-set_row jti_of (λ (u : RefreshToken). not (contains u.jti seen)) t.jti t
            (revoked reason now t) tokens found,
      ))
]

unseen-length : (tokens : List RefreshToken) → unseen [] tokens ≤ length tokens
unseen-length [] = omega arith
unseen-length (t ∷ tokens) = omega (arith, unseen-length tokens)

-- The walk visits each row at most once, so it ends when the fuel exceeds the rows not met yet.
walk_ends :
    (fuel : ℕ) (seen : List Uuid) (at : Option Uuid) (reason : String) (now : Timestamp)
    (tokens : List RefreshToken)
    → unseen seen tokens < fuel
    → is_some (revoke_chain fuel seen at reason now tokens) ≡ true
unfolding revoke_chain
walk_ends zero seen none reason now tokens enough = refl
walk_ends (suc fuel) seen none reason now tokens enough = refl
walk_ends zero seen (some jti) reason now tokens enough = absurd (omega arith)
walk_ends (suc fuel) seen (some jti) reason now tokens enough =
    elim (Bool-cases (contains jti seen)) [
      | inl met ↦ rw met refl
      | inr fresh ↦ rw fresh (elim (Option-cases (find jti_of jti tokens)) [
        | inl missing ↦ rw missing refl
        | inr (t, found) ↦
            let key = key-find jti_of jti tokens t found in
            let same =
              revoke_row-unseen (jti ∷ seen) reason now t tokens
                (subst (λ k. find jti_of k tokens ≡ some t) (sym key) found) in
            rw found (
              walk_ends fuel (jti ∷ seen) t.parent_jti reason now (revoke_row reason now t tokens)
                (omega (arith, same, unseen_lt jti seen tokens t found fresh)))
      ])
    ]

-- The fuel that a rotation gives to the walk is enough, whatever the chain, cycles included.
pub revoke_chain-ends :
    (at : Option Uuid) (reason : String) (now : Timestamp) (tokens : List RefreshToken)
    → is_some (revoke_chain (suc (length tokens)) [] at reason now tokens) ≡ true
revoke_chain-ends at reason now tokens =
    walk_ends (suc (length tokens)) [] at reason now tokens (omega (arith, unseen-length tokens))
