-- ===== src/Oauth/Accounts.antt =====
-- One row for an external account, through every branch of the resolution.
use mathlib.Core.Path.{subst, subst₂}
use trustedoss_portal.Prelude.{
  ◌≤◌, ◌≡◌, refl, ap, inl, inr, String, Bool, true, false, Option, none, some, List, [], ◌∷◌, ◌==◌,
  ==_iff, ==_refl, eq_iff, bit, Uuid, any-eq-false, count_if, find, find_by, count_if-remove_row_le,
  count_if-update_where, update_where, Result, ok, err, require, ◌>>=◌, arith, Bool-cases, some_inj,
  count_if_pos, any_of_find,
}
use trustedoss_portal.Model.{OauthProvider, OauthIdentity, Database}
use trustedoss_portal.Oauth.State.{OauthError, OauthUserInfo}
use trustedoss_portal.Oauth.Resolution.{
  Resolved, is_provider, of_account, identity_id_of, flush, insert_identity, refreshed,
  without_identity,
}

-- `uq_oauth_identities_provider_pid` and the primary key of the table.
pub record IsUniqueAccount (db : Database) : Type 0 where
  pub account :
      (p : OauthProvider) (id : String) → count_if (of_account p id) db.oauth_identities ≤ 1
  pub key : (k : Uuid) → count_if (λ (i : OauthIdentity). i.id == k) db.oauth_identities ≤ 1

-- A flush that keeps a property of the store, and a result that has one.
abbrev pub Flushes : (Database → Type 0) → Option Database → Type 0
Flushes P none = Unit
Flushes P (some db) = P db

abbrev pub Gives : (Resolved → Type 0) → Result OauthError Resolved → Type 0
Gives Q (err e) = Unit
Gives Q (ok r) = Q r

pub Flushes-flush :
    (P : Database → Type 0) (b : Bool) (db : Database) → (b ≡ true → P db) → Flushes P (flush b db)
Flushes-flush P true db h = h refl
Flushes-flush P false db h = tt

pub Gives-require {ℓ} :
    {A : Type ℓ} (Q : Resolved → Type 0) (o : Option A) (e : OauthError)
    (next : A → Result OauthError Resolved)
    → ((a : A) → o ≡ some a → Gives Q (next a))
    → Gives Q (require o e >>= next)
Gives-require Q none e next h = tt
Gives-require Q (some a) e next h = h a refl

pub Flushes-eq-some :
    (P : Database → Type 0) (o : Option Database) (db : Database) → Flushes P o → o ≡ some db → P db
Flushes-eq-some P none db h e = absurd (ground (arith, e))
Flushes-eq-some P (some d) db h e = subst P (some_inj e) h

is_provider_sound : (p q : OauthProvider) → is_provider p q ≡ true → p ≡ q
is_provider_sound OauthProvider.github OauthProvider.github h = refl
is_provider_sound OauthProvider.google OauthProvider.google h = refl
is_provider_sound OauthProvider.github OauthProvider.google h = absurd (ground (arith, h))
is_provider_sound OauthProvider.google OauthProvider.github h = absurd (ground (arith, h))

of_account_pair :
    (p : OauthProvider) (id : String) (i : OauthIdentity)
    → of_account p id i ≡ true
    → (i.provider ≡ p) × (i.provider_user_id ≡ id)
of_account_pair p id i h = elim (Bool-cases (is_provider i.provider p)) [
  | inl here ↦
      (is_provider_sound i.provider p here, (eq_iff i.provider_user_id id).0 (rw here at h))
  | inr other ↦ absurd (ground arith)
]

insert-account :
    (i : OauthIdentity) (rows : List OauthIdentity) (p : OauthProvider) (id : String)
    → count_if (of_account i.provider i.provider_user_id) rows ≡ 0
    → count_if (of_account p id) rows ≤ 1
    → count_if (of_account p id) (i ∷ rows) ≤ 1
insert-account i rows p id free below = elim (Bool-cases (of_account p id i)) [
  | inl here ↦
      let (ep, eid) = of_account_pair p id i here in
      let z : count_if (of_account p id) rows ≡ 0 =
        subst₂ (λ a b. count_if (of_account a b) rows ≡ 0) ep eid free in
      omega (arith, z, ap bit here)
  | inr other ↦ omega (arith, below, ap bit other)
]

insert-key :
    (i : OauthIdentity) (rows : List OauthIdentity) (k : Uuid)
    → count_if (λ (j : OauthIdentity). j.id == i.id) rows ≡ 0
    → count_if (λ (j : OauthIdentity). j.id == k) rows ≤ 1
    → count_if (λ (j : OauthIdentity). j.id == k) (i ∷ rows) ≤ 1
insert-key i rows k free below = elim (Bool-cases (i.id == k)) [
  | inl here ↦
      let z : count_if (λ (j : OauthIdentity). j.id == k) rows ≡ 0 =
        subst (λ a. count_if (λ (j : OauthIdentity). j.id == a) rows ≡ 0) ((==_iff i.id k).0 here)
          free in
      omega (arith, z, ap bit here)
  | inr other ↦ omega (arith, below, ap bit other)
]

-- What the insert of an identity leaves: unique accounts, and the row at its key.
pub insert_identity-Flushes :
    (db : Database) (i : OauthIdentity)
    → IsUniqueAccount db
    → Flushes
        (λ d. IsUniqueAccount d × (find identity_id_of i.id d.oauth_identities ≡ some i))
        (insert_identity db i)
unfolding insert_identity
insert_identity-Flushes db i u =
    Flushes-flush (λ d. IsUniqueAccount d × (find identity_id_of i.id d.oauth_identities ≡ some i))
      _ _
      λ checked. (
        record {
          account = λ p id.
              insert-account i db.oauth_identities p id
                (any-eq-false (of_account i.provider i.provider_user_id) db.oauth_identities
                  (ground (arith, checked)))
                (u.account p id);
          key = λ k.
              insert-key i db.oauth_identities k
                (any-eq-false (λ (j : OauthIdentity). j.id == i.id) db.oauth_identities
                  (ground (arith, checked)))
                (u.key k);
        },
        rw (==_refl i.id) refl,
      )

-- The row that a test finds is the row at its key.
pub find_by-key :
    (p : OauthIdentity → Bool) (rows : List OauthIdentity) (i : OauthIdentity)
    → find_by p rows ≡ some i
    → count_if (λ (j : OauthIdentity). j.id == i.id) rows ≤ 1
    → find identity_id_of i.id rows ≡ some i
find_by-key p [] i found lone = absurd (ground (arith, found))
find_by-key p (j ∷ rows) i found lone = elim (Bool-cases (p j)) [
  | inl here ↦ let e : j ≡ i = some_inj (rw here at found) in rw e (rw (==_refl i.id) refl)
  | inr other ↦
      let found' : find_by p rows ≡ some i = rw other at found in
      let rest = find_by-key p rows i found' (omega (arith, lone)) in
      elim (Bool-cases (j.id == i.id)) [
        | inl same ↦ absurd (
            let one : 1 ≤ count_if (λ (h : OauthIdentity). h.id == i.id) rows =
              count_if_pos (λ (h : OauthIdentity). h.id == i.id) rows
                (any_of_find identity_id_of i.id rows i rest) in
            omega (arith, lone, one, ap bit same))
        | inr differs ↦ rw differs rest
      ]
]

pub refreshed-IsUniqueAccount :
    (db : Database) (info : OauthUserInfo) (id : Uuid)
    → IsUniqueAccount db
    → IsUniqueAccount (record db {
      oauth_identities =
          update_where (λ (j : OauthIdentity). j.id == id) (refreshed info) db.oauth_identities;
    })
refreshed-IsUniqueAccount db info id u = record {
  account = λ p pid. omega (
    arith,
    u.account p pid,
    count_if-update_where (λ (j : OauthIdentity). j.id == id) (refreshed info) (of_account p pid)
        db.oauth_identities (λ _. refl),
  );
  key = λ k. omega (
    arith,
    u.key k,
    count_if-update_where (λ (j : OauthIdentity). j.id == id) (refreshed info)
        (λ (i : OauthIdentity). i.id == k) db.oauth_identities (λ _. refl),
  );
}

pub without_identity-IsUniqueAccount :
    (db : Database) (id : Uuid) → IsUniqueAccount db → IsUniqueAccount (without_identity id db)
without_identity-IsUniqueAccount db id u = record {
  account = λ p pid. omega (
    arith,
    u.account p pid,
    count_if-remove_row_le identity_id_of (of_account p pid) id db.oauth_identities,
  );
  key = λ k. omega (
    arith,
    u.key k,
    count_if-remove_row_le identity_id_of (λ (i : OauthIdentity). i.id == k) id db.oauth_identities,
  );
}
