-- ===== src/ApiKeys/Steps/Revoked.antt =====
-- A revoked key, presented again.
use mathlib.Core.Path.{subst}
use trustedoss_portal.Prelude.{
  ℕ, ◌≤◌, ◌≡◌, refl, ap, ◌∙◌, sym, inl, inr, Bool, true, none, some, List, [], ◌∷◌, is_some, Uuid,
  Timestamp, Text, text_eq_refl, text_eq_sound, any, All, arith, Bool-cases, ok, find, find_by,
  update_where, update_where-All, any-update_where, find-update_where, lone-All, any_of_found,
  count_if-update_where, >>=-eq-ok, require-eq-ok, require, guard, Result-cases,
}
use trustedoss_portal.Model.{ApiKey, Database}
use trustedoss_portal.Security.{CurrentUser}
use trustedoss_portal.ApiKeys.{
  Hasher, KeyError, has_prefix, with_keys, can_view_key, can_revoke_key,
}
use trustedoss_portal.ApiKeys.Bearer.{parse_bearer}
use trustedoss_portal.ApiKeys.Present.{live_key, used, authenticate_api_key}
use trustedoss_portal.ApiKeys.Steps.{
  Request, run, revoked, has_id, revoke_checked, check_revoke, revoke_api_key,
}
use trustedoss_portal.ApiKeys.Steps.Invariant.{Keeps, run-keeps, insertable-fresh, IsUniquePrefix}

abbrev IsRevoked : ApiKey → Type 0
IsRevoked key = is_some key.revoked_at ≡ true

-- The prefix is in use, and by revoked keys only.
record IsRetired (prefix : Text) (db : Database) : Type 0 where
  taken : any (has_prefix prefix) db.api_keys ≡ true
  dead : All (λ key. has_prefix prefix key ≡ true → IsRevoked key) db.api_keys

IsRetired-Keeps : (prefix : Text) → Keeps (IsRetired prefix)
IsRetired-Keeps prefix = record {
  inserting = λ db key p free live. record {
    taken = ground (arith, p.taken);
    dead = (
      λ same.
          let e : key.key_prefix ≡ prefix = text_eq_sound key.key_prefix prefix same in
          cc (
            p.taken,
            ap (λ (t : Text). any (has_prefix t) db.api_keys) e,
            insertable-fresh db key free,
          ),
      p.dead,
    );
  };
  revoking = λ db actor id now p. record {
    taken =
        any-update_where (has_id id) (revoked actor now) (has_prefix prefix) db.api_keys (λ x. refl)
        ∙ p.taken;
    dead =
        update_where-All (has_id id) (revoked actor now)
          (λ key. has_prefix prefix key ≡ true → IsRevoked key) db.api_keys (λ x _ _ _. refl)
          p.dead;
  };
  using = λ db now key p. record {
    taken =
        any-update_where (has_id key.id) (used now) (has_prefix prefix) db.api_keys (λ x. refl)
        ∙ p.taken;
    dead =
        update_where-All (has_id key.id) (used now) (λ k. has_prefix prefix k ≡ true → IsRevoked k)
          db.api_keys (λ x _ s. s) p.dead;
  };
}

no_live_key :
    (prefix : Text) (keys : List ApiKey)
    → All (λ key. has_prefix prefix key ≡ true → IsRevoked key) keys
    → find_by (live_key prefix) keys ≡ none
no_live_key prefix [] h = refl
no_live_key prefix (k ∷ ks) (hk, h) = elim (Bool-cases (has_prefix prefix k)) [
  | inl same ↦ rw (same, hk same) (no_live_key prefix ks h)
  | inr other ↦ rw other (no_live_key prefix ks h)
]

retired_refused :
    (h : Hasher) (prefix secret plaintext : Text) (db : Database) (now : Timestamp) (saved : Bool)
    → IsRetired prefix db
    → parse_bearer plaintext ≡ some (prefix, secret)
    → authenticate_api_key h db plaintext now saved ≡ (none, db)
unfolding authenticate_api_key
retired_refused h prefix secret plaintext db now saved p parsed =
    rw parsed (rw (no_live_key prefix db.api_keys p.dead) refl)

-- A row found by its identifier and revoked retires its prefix.
IsRetired-of_row :
    (id : Uuid) (key : ApiKey) (db : Database)
    → find (λ (k : ApiKey). k.id) id db.api_keys ≡ some key
    → IsRevoked key
    → IsUniquePrefix db.api_keys
    → IsRetired key.key_prefix db
IsRetired-of_row id key db found dead unique = record {
  taken =
      any_of_found (λ (k : ApiKey). k.id) (has_prefix key.key_prefix) id key db.api_keys found
        (text_eq_refl key.key_prefix);
  dead =
      lone-All (λ (k : ApiKey). k.id) (has_prefix key.key_prefix) IsRevoked id key db.api_keys found
        (text_eq_refl key.key_prefix) (unique key.key_prefix) dead;
}

abbrev key_id : ApiKey → Uuid
key_id k = k.id

check_revoke-eq-ok :
    (db : Database) (actor : CurrentUser) (id : Uuid) (key : ApiKey)
    → check_revoke db actor id ≡ ok key
    → find key_id id db.api_keys ≡ some key
unfolding check_revoke
check_revoke-eq-ok db actor id key h =
    let (k, found, rest) =
      >>=-eq-ok (require (find key_id id db.api_keys) KeyError.not_found) _ h in
    let (_, _, rest') = >>=-eq-ok (guard (can_view_key actor k) KeyError.not_found) _ rest in
    let (_, _, same) = >>=-eq-ok (guard (can_revoke_key actor k) KeyError.forbidden) _ rest' in
    let e : k ≡ key = cc same in
    require-eq-ok (find key_id id db.api_keys) KeyError.not_found found ∙ ap (λ x. some x) e

revoke_checked-IsRetired :
    (db : Database) (actor : CurrentUser) (id : Uuid) (now : Timestamp) (row key : ApiKey)
    → IsUniquePrefix db.api_keys
    → find key_id id db.api_keys ≡ some row
    → (revoke_checked db actor id now (ok row)).0 ≡ ok key
    → IsRetired key.key_prefix (revoke_checked db actor id now (ok row)).1
revoke_checked-IsRetired db actor id now row key unique found h =
    elim (Bool-cases (is_some row.revoked_at)) [
      | inl done ↦
          let same : row ≡ key = cc (rw done at h) in
          rw done (
            subst (λ (k : ApiKey). IsRetired k.key_prefix db) same
              (IsRetired-of_row id row db found done unique))
      | inr live ↦
          let same : revoked actor now row ≡ key = cc (rw live at h) in
          let keys = update_where (has_id id) (revoked actor now) db.api_keys in
          rw live (
            subst (λ (k : ApiKey). IsRetired k.key_prefix (with_keys db keys)) same
              (IsRetired-of_row id (revoked actor now row) (with_keys db keys)
                (find-update_where key_id (revoked actor now) id row db.api_keys (λ x. refl) found)
                refl
                (λ prefix.
                  subst (λ (n : ℕ). n ≤ 1)
                    (sym (
                      count_if-update_where (has_id id) (revoked actor now) (has_prefix prefix)
                        db.api_keys (λ x. refl)))
                    (unique prefix))))
    ]

revoke_api_key-IsRetired :
    (db : Database) (actor : CurrentUser) (id : Uuid) (now : Timestamp) (key : ApiKey)
    → IsUniquePrefix db.api_keys
    → (revoke_api_key db actor id now).0 ≡ ok key
    → IsRetired key.key_prefix (revoke_api_key db actor id now).1
unfolding revoke_api_key
revoke_api_key-IsRetired db actor id now key unique h =
    elim (Result-cases (check_revoke db actor id)) [
      | inl (e, raised) ↦ absurd (cc (rw raised at h))
      | inr (row, checked) ↦ rw checked (
          revoke_checked-IsRetired db actor id now row key unique
            (check_revoke-eq-ok db actor id row checked) (rw checked at h))
    ]

-- Where no two keys share a prefix and a revocation has succeeded, no bearer that names the prefix of the revoked key authenticates after any further requests, issues of new keys included: the answer is none and the table is not touched.
pub revoked_key_refused :
    (h : Hasher) (db : Database) (actor : CurrentUser) (id : Uuid) (moment : Timestamp)
    (key : ApiKey) (qs : List Request) (secret plaintext : Text) (now : Timestamp) (saved : Bool)
    → IsUniquePrefix db.api_keys
    → (revoke_api_key db actor id moment).0 ≡ ok key
    → parse_bearer plaintext ≡ some (key.key_prefix, secret)
    → authenticate_api_key h (run h (revoke_api_key db actor id moment).1 qs) plaintext now saved
      ≡ (none, run h (revoke_api_key db actor id moment).1 qs)
revoked_key_refused h db actor id moment key qs secret plaintext now saved unique done parsed =
    retired_refused h key.key_prefix secret plaintext _ now saved
      (run-keeps (IsRetired key.key_prefix) (IsRetired-Keeps key.key_prefix) h _ qs
        (revoke_api_key-IsRetired db actor id moment key unique done))
      parsed
