-- ===== src/ApiKeys/Steps/Invariant.antt =====
-- The table of API keys under every request: what an insert, a revocation and a use keep holds
-- after any sequence of them.
use mathlib.Core.Path.{subst}
use trustedoss_portal.Prelude.{
  sym, ℕ, zero, suc, ◌+◌, ◌≤◌, ◌≡◌, refl, inl, inr, Bool, true, false, Option, none, some, List, [],
  ◌∷◌, is_some, Uuid, Timestamp, Text, text_eq_sound, any, any-eq-false, count_if, All, arith,
  Bool-cases, Result, ok, err, update_where, update_where-All, count_if-update_where, find_by,
}
use trustedoss_portal.Model.{ApiKey, Database}
use trustedoss_portal.Security.{CurrentUser}
use trustedoss_portal.ApiKeys.{
  Hasher, KeyError, IssueRequest, Draw, has_prefix, scope_consistent, insertable, with_keys,
  new_key, issue_attempts, issue_checked, check_issue, issue_api_key, verify_password,
}
use trustedoss_portal.ApiKeys.Present.{
  used, mark_used, touch, authenticate_row, authenticate_parsed, authenticate_api_key,
  present_token, get_current_api_key, live_key,
}
use trustedoss_portal.ApiKeys.Bearer.{parse_bearer, bearer_token}
use trustedoss_portal.ApiKeys.Steps.{
  Request, issue, revoke, present, step, run, revoked, has_id, revoke_checked, check_revoke,
  revoke_api_key,
}

module _ (P : Database → Type 0) where
  pub record Keeps : Type 0 where
    pub inserting :
        (db : Database) (key : ApiKey)
        → P db
        → insertable db key ≡ true
        → key.revoked_at ≡ none
        → P (with_keys db (key ∷ db.api_keys))
    pub revoking :
        (db : Database) (actor : CurrentUser) (id : Uuid) (now : Timestamp)
        → P db
        → P (with_keys db (update_where (has_id id) (revoked actor now) db.api_keys))
    pub using : (db : Database) (now : Timestamp) (key : ApiKey) → P db → P (mark_used db now key)

  module _ (keeps : Keeps) (h : Hasher) where
    issue_attempts-keeps :
        (db : Database) (req : IssueRequest) (team : Option Uuid) (draws : ℕ → Draw)
        (attempt left : ℕ)
        → P db
        → P (issue_attempts h db req team draws attempt left).1
    unfolding issue_attempts
    issue_attempts-keeps db req team draws attempt zero p = p
    issue_attempts-keeps db req team draws attempt (suc left) p =
        elim (Bool-cases (insertable db (new_key h req team (draws attempt)))) [
          | inl free ↦ rw free (keeps.inserting db (new_key h req team (draws attempt)) p free refl)
          | inr clash ↦ rw clash (issue_attempts-keeps db req team draws (attempt + 1) left p)
        ]

    issue_checked-keeps :
        (db : Database) (req : IssueRequest) (draws : ℕ → Draw) (r : Result KeyError (Option Uuid))
        → P db
        → P (issue_checked h db req draws r).1
    issue_checked-keeps db req draws (err e) p = p
    issue_checked-keeps db req draws (ok team) p = issue_attempts-keeps db req team draws 0 5 p

    revoke_checked-keeps :
        (db : Database) (actor : CurrentUser) (id : Uuid) (now : Timestamp)
        (r : Result KeyError ApiKey)
        → P db
        → P (revoke_checked db actor id now r).1
    revoke_checked-keeps db actor id now (err e) p = p
    revoke_checked-keeps db actor id now (ok key) p = elim (Bool-cases (is_some key.revoked_at)) [
      | inl done ↦ rw done p
      | inr live ↦ rw live (keeps.revoking db actor id now p)
    ]

    touch-keeps :
        (db : Database) (now : Timestamp) (saved : Bool) (key : ApiKey)
        → P db
        → P (touch db now saved key).1
    touch-keeps db now true key p = keeps.using db now key p
    touch-keeps db now false key p = p

    authenticate_row-keeps :
        (db : Database) (plaintext : Text) (now : Timestamp) (saved : Bool) (row : Option ApiKey)
        → P db
        → P (authenticate_row h db plaintext now saved row).1
    authenticate_row-keeps db plaintext now saved none p = p
    authenticate_row-keeps db plaintext now saved (some key) p =
        elim (Bool-cases (verify_password h plaintext key.key_hash)) [
          | inl good ↦ rw good (touch-keeps db now saved key p)
          | inr bad ↦ rw bad p
        ]

    authenticate_parsed-keeps :
        (db : Database) (plaintext : Text) (now : Timestamp) (saved : Bool)
        (parsed : Option (Text × Text))
        → P db
        → P (authenticate_parsed h db plaintext now saved parsed).1
    authenticate_parsed-keeps db plaintext now saved none p = p
    authenticate_parsed-keeps db plaintext now saved (some (prefix, secret)) p =
        authenticate_row-keeps db plaintext now saved (find_by (live_key prefix) db.api_keys) p

    present_token-keeps :
        (db : Database) (now : Timestamp) (saved : Bool) (token : Option Text)
        → P db
        → P (present_token h db now saved token).1
    unfolding authenticate_api_key
    present_token-keeps db now saved none p = p
    present_token-keeps db now saved (some token) p =
        elim (Bool-cases (is_some (parse_bearer token))) [
          | inl key_shaped ↦
              rw key_shaped (authenticate_parsed-keeps db token now saved (parse_bearer token) p)
          | inr other ↦ rw other p
        ]

    step-keeps : (db : Database) (q : Request) → P db → P (step h db q)
    unfolding step issue_api_key revoke_api_key get_current_api_key
    step-keeps db (issue seen req draws) p =
        issue_checked-keeps db req draws (check_issue seen req) p
    step-keeps db (revoke actor id now) p =
        revoke_checked-keeps db actor id now (check_revoke db actor id) p
    step-keeps db (present header now saved) p =
        present_token-keeps db now saved (bearer_token header) p

    pub run-keeps : (db : Database) (qs : List Request) → P db → P (run h db qs)
    unfolding run
    run-keeps db [] p = p
    run-keeps db (q ∷ qs) p = run-keeps (step h db q) qs (step-keeps db q p)

insertable-scoped :
    (db : Database) (key : ApiKey)
    → insertable db key ≡ true
    → scope_consistent key.scope key.team_id key.project_id ≡ true
unfolding insertable
insertable-scoped db key h = ground arith

pub insertable-fresh :
    (db : Database) (key : ApiKey)
    → insertable db key ≡ true
    → any (has_prefix key.key_prefix) db.api_keys ≡ false
unfolding insertable
insertable-fresh db key h = ground arith

-- No prefix stands in two rows.
abbrev pub IsUniquePrefix : List ApiKey → Type 0
IsUniquePrefix keys = (prefix : Text) → count_if (has_prefix prefix) keys ≤ 1

IsUniquePrefix-inserting :
    (db : Database) (key : ApiKey)
    → IsUniquePrefix db.api_keys
    → insertable db key ≡ true
    → IsUniquePrefix (key ∷ db.api_keys)
IsUniquePrefix-inserting db key unique free prefix = elim (Bool-cases (has_prefix prefix key)) [
  | inr other ↦ rw other (omega (arith, unique prefix))
  | inl same ↦
      let e : key.key_prefix ≡ prefix = text_eq_sound key.key_prefix prefix same in
      let fresh : any (has_prefix prefix) db.api_keys ≡ false =
        subst (λ (t : Text). any (has_prefix t) db.api_keys ≡ false) e
          (insertable-fresh db key free) in
      rw same (omega (arith, any-eq-false (has_prefix prefix) db.api_keys fresh))
]

abbrev pub IsScoped : ApiKey → Type 0
IsScoped key = scope_consistent key.scope key.team_id key.project_id ≡ true

-- The constraints of the table: unique prefixes, and scopes that agree with their identifiers.
pub record IsWellFormed (db : Database) : Type 0 where
  pub unique : IsUniquePrefix db.api_keys
  pub scoped : All IsScoped db.api_keys

IsWellFormed-Keeps : Keeps IsWellFormed
IsWellFormed-Keeps = record {
  inserting = λ db key p free live. record {
    unique = IsUniquePrefix-inserting db key p.unique free;
    scoped = (insertable-scoped db key free, p.scoped);
  };
  revoking = λ db actor id now p. record {
    unique = λ prefix.
        subst (λ (n : ℕ). n ≤ 1)
          (sym (
            count_if-update_where (has_id id) (revoked actor now) (has_prefix prefix) db.api_keys
              (λ x. refl)))
          (p.unique prefix);
    scoped =
        update_where-All (has_id id) (revoked actor now) IsScoped db.api_keys (λ x _ s. s) p.scoped;
  };
  using = λ db now key p. record {
    unique = λ prefix.
        subst (λ (n : ℕ). n ≤ 1)
          (sym (
            count_if-update_where (has_id key.id) (used now) (has_prefix prefix) db.api_keys
              (λ x. refl)))
          (p.unique prefix);
    scoped = update_where-All (has_id key.id) (used now) IsScoped db.api_keys (λ x _ s. s) p.scoped;
  };
}

-- Whatever requests are served, no two keys share a prefix and the scope of every key agrees with its team and project: both hold of the table after any run from a table where they hold.
pub run-IsWellFormed :
    (h : Hasher) (db : Database) (qs : List Request) → IsWellFormed db → IsWellFormed (run h db qs)
run-IsWellFormed h db qs p = run-keeps IsWellFormed IsWellFormed-Keeps h db qs p
