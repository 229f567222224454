-- ===== src/ApiKeys/Steps/Issued.antt =====
-- A key that was issued: who may issue it, and what its bearer is taken for.
use mathlib.Core.Path.{subst}
use trustedoss_portal.Prelude.{
  String, ℕ, zero, suc, ◌+◌, ◌≡◌, refl, ap, sym, ◌∙◌, inl, inr, Bool, true, false, ◌&&◌, ◌||◌,
  Option, none, some, List, [], ◌∷◌, ◌++◌, map, length, Uuid, Timestamp, Text, codes, take,
  text_eq_refl, arith, Bool-cases, ok_inj, Result, ok, err, find, any, ◌==◌,
}
use trustedoss_portal.Model.{Role, team, ApiKey, User, Membership, Database, Team}
use trustedoss_portal.Security.{
  CurrentUser, is_super, highest_role, team_roles_from, current_user_of,
}
use trustedoss_portal.ApiKeys.{
  Hasher, KeyError, IssueRequest, Draw, hash_password, verify_password, within, administers,
  can_issue_at_scope, scope_consistent, draw_plaintext, new_key, insertable, with_keys,
  issue_attempts, project_team, check_issue, issue_checked, issue_api_key, is_team_scope,
  is_project_scope, prefix_retries,
}
use trustedoss_portal.ApiKeys.Bearer.{generate_prefix}
use trustedoss_portal.ApiKeys.Bearer.Format.{parse_bearer-format}
use trustedoss_portal.ApiKeys.Bearer.Header.{bearer_token-plaintext}
use trustedoss_portal.ApiKeys.Present.{
  authenticate_api_key, get_current_api_key, memberships_of, key_role, principal_of,
  issuer_principal, principal_for, get_api_key_principal,
}

-- What a successful loop has done.
record Attempted (h : Hasher) (db : Database) (req : IssueRequest) (effective_team : Option Uuid)
    (draws : ℕ → Draw) (key : ApiKey) (plaintext : Text) (after : Database) : Type 0 where
  index : ℕ
  row : key ≡ new_key h req effective_team (draws index)
  text : plaintext ≡ draw_plaintext (draws index)
  inserted : after ≡ with_keys db (key ∷ db.api_keys)
  free : insertable db key ≡ true

issue_attempts-Attempted :
    (h : Hasher) (db : Database) (req : IssueRequest) (effective_team : Option Uuid)
    (draws : ℕ → Draw) (attempt left : ℕ) (key : ApiKey) (plaintext : Text)
    → (issue_attempts h db req effective_team draws attempt left).0 ≡ ok (key, plaintext)
    → Attempted h db req effective_team draws key plaintext
        (issue_attempts h db req effective_team draws attempt left).1
unfolding issue_attempts
issue_attempts-Attempted h db req t draws attempt zero key plaintext e = absurd (cc e)
issue_attempts-Attempted h db req t draws attempt (suc left) key plaintext e =
    elim (Bool-cases (insertable db (new_key h req t (draws attempt)))) [
      | inr clash ↦ rw clash (
          issue_attempts-Attempted h db req t draws (attempt + 1) left key plaintext
            (rw clash at e))
      | inl free ↦
          let both : (new_key h req t (draws attempt), draw_plaintext (draws attempt))
              ≡ (key, plaintext) =
            ok_inj (rw free at e) in
          let row : new_key h req t (draws attempt) ≡ key = ap (λ (p : ApiKey × Text). p.0) both in
          rw free (record {
            index = attempt;
            row = sym row;
            text = sym (ap (λ (p : ApiKey × Text). p.1) both);
            inserted = ap (λ (k : ApiKey). with_keys db (k ∷ db.api_keys)) row;
            free = subst (λ (k : ApiKey). insertable db k ≡ true) row free;
          })
    ]

-- The highest role of a key's issuer is computed a second time, to the same result.
key_role-highest_role :
    (superuser : Bool) (roles : List Role) → key_role superuser roles ≡ highest_role roles superuser
unfolding key_role highest_role
key_role-highest_role true roles = refl
key_role-highest_role false [] = refl
key_role-highest_role false (r ∷ rs) = refl

-- The principal that a key stands for is the one that its issuer's session token would give.
pub principal_of-current_user_of :
    (user : User) (ms : List Membership) → principal_of user ms ≡ current_user_of user ms
unfolding principal_of current_user_of
principal_of-current_user_of user ms =
    ap
      (λ (r : Role). record {
        id = user.id;
        email = user.email;
        role = r;
        team_ids = map (λ (m : Membership). m.team_id) ms;
        team_roles = team_roles_from [] ms;
        is_active = user.is_active;
        is_superuser = user.is_superuser;
      })
      (key_role-highest_role user.is_superuser (map (λ (m : Membership). m.role) ms))

-- bcrypt accepts the plaintext that a hash was made of.
abbrev pub IsSound : Hasher → Type 0
IsSound h = (salt : ℕ) (plain : Text) → h.verify plain (h.hash salt plain) ≡ some true

-- `secrets.token_hex(4)` and `secrets.token_urlsafe(24)`.
abbrev pub HasLengths : Draw → Type 0
HasLengths d = (length d.prefix_bytes ≡ 4) × (length d.secret_bytes ≡ 24)

-- The row that is presented may stand for a key that equals it.
principal_of_new :
    (h : Hasher) (db after : Database) (req : IssueRequest) (effective_team : Option Uuid)
    (d : Draw) (user : User) (now : Timestamp)
    → IsSound h
    → HasLengths d
    → find (λ (u : User). u.id) req.actor.id db.users ≡ some user
    → user.is_active ≡ true
    → after ≡ with_keys db (new_key h req effective_team d ∷ db.api_keys)
    → (get_api_key_principal h after (some (codes "Bearer " ++ draw_plaintext d)) now true).0
      ≡ some (principal_of user (memberships_of db user.id))
unfolding get_api_key_principal get_current_api_key authenticate_api_key principal_for
    issuer_principal verify_password hash_password
principal_of_new h db after req t d user now sound sizes found active inserted = rw inserted (
    rw (bearer_token-plaintext d.prefix_bytes d.secret_bytes) (
      rw (parse_bearer-format d.prefix_bytes d.secret_bytes sizes.0 (omega (arith, sizes.1))) (
        rw (text_eq_refl (generate_prefix d.prefix_bytes))
          (rw (sound d.salt (take 72 (draw_plaintext d))) (rw (found, active) refl)))))

issue_checked-Attempted :
    (h : Hasher) (db : Database) (req : IssueRequest) (draws : ℕ → Draw)
    (checked : Result KeyError (Option Uuid)) (key : ApiKey) (plaintext : Text)
    → (issue_checked h db req draws checked).0 ≡ ok (key, plaintext)
    → (t : Option Uuid) × (checked ≡ ok t)
      × Attempted h db req t draws key plaintext (issue_checked h db req draws checked).1
issue_checked-Attempted h db req draws (err e) key plaintext made = absurd (cc made)
issue_checked-Attempted h db req draws (ok t) key plaintext made =
    (t, refl, issue_attempts-Attempted h db req t draws 0 prefix_retries key plaintext made)

-- A key that has just been issued, presented in the header `Bearer <plaintext>`, makes the request act as its issuer: the principal is the one that a session token of that user would give. The hash function accepts what it hashed, the draws of the random generator have the lengths that the code asks for, and the issuer's row is found and active.
pub issue_api_key-principal :
    (h : Hasher) (seen db : Database) (req : IssueRequest) (draws : ℕ → Draw) (key : ApiKey)
    (plaintext : Text) (user : User) (now : Timestamp)
    → IsSound h
    → ((i : ℕ) → HasLengths (draws i))
    → (issue_api_key h seen db req draws).0 ≡ ok (key, plaintext)
    → find (λ (u : User). u.id) req.actor.id db.users ≡ some user
    → user.is_active ≡ true
    → (get_api_key_principal h
        (issue_api_key h seen db req draws).1
        (some (codes "Bearer " ++ plaintext))
        now
        true).0
      ≡ some (current_user_of user (memberships_of db user.id))
unfolding issue_api_key
issue_api_key-principal h seen db req draws key plaintext user now sound sizes made found active =
    let (t, checked, run) =
      issue_checked-Attempted h db req draws (check_issue seen req) key plaintext made in
    let d = draws run.index in
    rw run.text (
      principal_of_new h db _ req t d user now sound (sizes run.index) found active
        (run.inserted ∙ ap (λ (k : ApiKey). with_keys db (k ∷ db.api_keys)) run.row)
      ∙ ap (λ (u : CurrentUser). some u)
          (principal_of-current_user_of user (memberships_of db user.id)))

-- What the actor may issue, read off the row.
abbrev pub may_hold : CurrentUser → ApiKey → Bool
may_hold actor key =
    (is_team_scope key.scope && administers actor key.team_id)
    || (is_project_scope key.scope && within key.team_id actor.team_ids)

insertable-unknown_team :
    (h : Hasher) (db : Database) (req : IssueRequest) (t : Uuid) (d : Draw)
    → any (λ (x : Team). x.id == t) db.teams ≡ false
    → insertable db (new_key h req (some t) d) ≡ false
unfolding insertable
insertable-unknown_team h db req t d missing = ground (arith, missing)

issue_attempts-unknown_team :
    (h : Hasher) (db : Database) (req : IssueRequest) (t : Uuid) (draws : ℕ → Draw)
    (attempt left : ℕ)
    → any (λ (x : Team). x.id == t) db.teams ≡ false
    → issue_attempts h db req (some t) draws attempt left ≡ (err KeyError.issue_failed, db)
unfolding issue_attempts
issue_attempts-unknown_team h db req t draws attempt zero missing = refl
issue_attempts-unknown_team h db req t draws attempt (suc left) missing =
    rw (insertable-unknown_team h db req t (draws attempt) missing)
      (issue_attempts-unknown_team h db req t draws (attempt + 1) left missing)

-- A super admin who asks for a key of a team that does not exist is told, with the status of an exhausted retry loop, that no unique prefix could be allocated, whatever prefixes were drawn: the foreign key's error is taken for a collision. The store is left as it was.
pub issue_api_key-unknown_team :
    (h : Hasher) (seen db : Database) (actor : CurrentUser) (name : String) (t : Uuid)
    (draws : ℕ → Draw)
    → is_super actor ≡ true
    → any (λ (x : Team). x.id == t) db.teams ≡ false
    → issue_api_key h seen db
        (record { actor = actor; name = name; scope = team; team_id = some t; project_id = none })
        draws
      ≡ (err KeyError.issue_failed, db)
unfolding issue_api_key check_issue scope_consistent project_team can_issue_at_scope
issue_api_key-unknown_team h seen db actor name t draws super missing =
    rw super (issue_attempts-unknown_team h db _ t draws 0 prefix_retries missing)
