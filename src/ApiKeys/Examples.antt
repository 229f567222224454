-- ===== src/ApiKeys/Examples.antt =====
-- Runs of the API key code, and its theorems at concrete inputs. The hash of the examples keeps the
-- plaintext, after a marker.
use trustedoss_portal.Prelude.{
  ℕ, ◌+◌, ◌≡◌, refl, ap, inl, inr, Bool-cases, true, false, none, some, List, [], ◌∷◌, ◌++◌, Text,
  codes, text_eq, text_eq_refl, ok, arith,
}
use trustedoss_portal.Model.{project, ApiKey, Database, FindingStatus, ApprovalStatus, ScanStatus}
use trustedoss_portal.Security.{current_user_of, is_super, dict_get}
use trustedoss_portal.Samples.{alice, bob, carol, store, user_row}
use trustedoss_portal.ApiKeys.{
  Hasher, IssueRequest, Draw, new_key, draw_plaintext, issue_api_key, check_issue, scope_consistent,
  insertable, issue_attempts, with_keys, has_prefix, can_view_key, can_revoke_key,
}
use trustedoss_portal.ApiKeys.Bearer.{
  generate_prefix, token_urlsafe, format_plaintext, parse_bearer, bearer_token,
}
use trustedoss_portal.ApiKeys.Bearer.Format.{parse_bearer-format}
use trustedoss_portal.ApiKeys.Present.{get_api_key_principal, authenticate_api_key, memberships_of}
use trustedoss_portal.ApiKeys.Steps.{revoke_api_key, visible, Request, issue, run}
use trustedoss_portal.ApiKeys.Steps.Invariant.{IsUniquePrefix}
use trustedoss_portal.ApiKeys.Steps.Revoked.{revoked_key_refused}
use trustedoss_portal.ApiKeys.Steps.Visible.{visible-can_view_key}
use trustedoss_portal.ApiKeys.Steps.Issued.{issue_api_key-principal}

-- A header's key may be written with capitals, or as a number with its mark.
reads_capitals :
    parse_bearer (codes "tos_DEADBEEF_secret") ≡ some (codes "tos_DEADBEEF", codes "secret")
unfolding parse_bearer
reads_capitals = refl

reads_mark : parse_bearer (codes "tos_0x1234ff_a_b") ≡ some (codes "tos_0x1234ff", codes "a_b")
unfolding parse_bearer
reads_mark = refl

refuses_text : parse_bearer (codes "tos_ghijklmn_secret") ≡ none
unfolding parse_bearer
refuses_text = refl

reads_header : bearer_token (some (codes " bEARER   abc ")) ≡ some (codes "abc")
unfolding bearer_token
reads_header = refl

abbrev four_bytes : List ℕ
four_bytes = 1 ∷ 35 ∷ 171 ∷ 239 ∷ []

abbrev secret_noise : List ℕ
secret_noise =
    1 ∷ 2 ∷ 3 ∷ 4 ∷ 5 ∷ 6 ∷ 7 ∷ 8 ∷ 9 ∷ 10 ∷ 11 ∷ 12 ∷ 13 ∷ 14 ∷ 15 ∷ 16 ∷ 17 ∷ 18 ∷ 19 ∷ 20 ∷ 21
    ∷ 22 ∷ 23 ∷ 255 ∷ []

prefix_text : generate_prefix four_bytes ≡ codes "tos_0123abef"
unfolding generate_prefix
prefix_text = refl

secret_text : token_urlsafe secret_noise ≡ codes "AQIDBAUGBwgJCgsMDQ4PEBESExQVFhf_"
unfolding token_urlsafe
secret_text = refl

parse_bearer-format_example :
    parse_bearer (format_plaintext (generate_prefix four_bytes) (token_urlsafe secret_noise))
    ≡ some (generate_prefix four_bytes, token_urlsafe secret_noise)
parse_bearer-format_example = parse_bearer-format four_bytes secret_noise refl (omega arith)

abbrev plain_hasher : Hasher
plain_hasher = record {
  hash = λ salt plain. salt ∷ plain;
  verify = λ plain hashed. elim hashed [ [] ↦ none | s ∷ kept ↦ some (text_eq plain kept) ];
}

plain_hasher_sound :
    (salt : ℕ) (plain : Text) → plain_hasher.verify plain (plain_hasher.hash salt plain) ≡ some true
plain_hasher_sound salt plain = rw (text_eq_refl plain) refl

abbrev draws : ℕ → Draw
draws i = record {
  prefix_bytes = i ∷ 35 ∷ 171 ∷ 239 ∷ [];
  secret_bytes = secret_noise;
  salt = 7;
  id = 300 + i;
  now = 50;
}

abbrev db : Database
db = store FindingStatus.new ApprovalStatus.pending ScanStatus.queued

-- Bob, a developer of team 1, issues a key for a project of the team.
abbrev by_bob : IssueRequest
by_bob = record { actor = bob; name = "ci"; scope = project; team_id = none; project_id = some 21 }

abbrev bob_key : ApiKey
bob_key = new_key plain_hasher by_bob (some 1) (draws 0)

bob_issues :
    issue_api_key plain_hasher db db by_bob draws
    ≡ (ok (bob_key, draw_plaintext (draws 0)), with_keys db (bob_key ∷ []))
unfolding issue_api_key check_issue issue_attempts insertable is_super
bob_issues = refl

issue_api_key-principal_example :
    (get_api_key_principal plain_hasher
      (issue_api_key plain_hasher db db by_bob draws).1
      (some (codes "Bearer " ++ draw_plaintext (draws 0)))
      60
      true).0
    ≡ some (current_user_of (user_row 12 true false) (memberships_of db 12))
issue_api_key-principal_example =
    issue_api_key-principal plain_hasher db db by_bob draws bob_key (draw_plaintext (draws 0))
      (user_row 12 true false) 60 plain_hasher_sound (λ i. (refl, refl)) (ap (λ r. r.0) bob_issues)
      refl refl

abbrev with_key : Database
with_key = with_keys db (bob_key ∷ [])

one_key : IsUniquePrefix with_key.api_keys
one_key prefix = elim (Bool-cases (has_prefix prefix bob_key)) [
  | inl same ↦ rw same (omega arith)
  | inr other ↦ rw other (omega arith)
]

-- Alice administers team 1, and revokes Bob's key; then he issues another one.
alice_revokes :
    (revoke_api_key with_key alice 300 70).0
    ≡ ok (record bob_key { revoked_at = some 70; revoked_by_user_id = some 11 })
unfolding revoke_api_key can_view_key can_revoke_key is_super dict_get
alice_revokes = refl

abbrev later : List Request
later = issue db by_bob (λ i. draws (i + 1)) ∷ []

revoked_key_refused_example :
    authenticate_api_key plain_hasher
      (run plain_hasher (revoke_api_key with_key alice 300 70).1 later)
      (draw_plaintext (draws 0))
      80
      true
    ≡ (none, run plain_hasher (revoke_api_key with_key alice 300 70).1 later)
revoked_key_refused_example =
    revoked_key_refused plain_hasher with_key alice 300 70
      (record bob_key { revoked_at = some 70; revoked_by_user_id = some 11 }) later
      (token_urlsafe secret_noise) (draw_plaintext (draws 0)) 80 true one_key alice_revokes
      (parse_bearer-format (0 ∷ 35 ∷ 171 ∷ 239 ∷ []) secret_noise refl (omega arith))

bob_key-scoped : scope_consistent bob_key.scope bob_key.team_id bob_key.project_id ≡ true
unfolding scope_consistent
bob_key-scoped = refl

visible-can_view_key_example : visible carol bob_key ≡ can_view_key carol bob_key
visible-can_view_key_example = visible-can_view_key carol bob_key bob_key-scoped
