-- ===== src/Oauth/Examples.antt =====
-- The theorems on external accounts at concrete requests.
use trustedoss_portal.Prelude.{
  ◌≡◌, refl, String, true, false, Option, none, some, [], ◌∷◌, ok, any, order_by, insert_in, arith,
}
use trustedoss_portal.Model.{OauthProvider, OauthIdentity, new, pending, ScanStatus, Database}
use trustedoss_portal.Samples.{user_row, store}
use trustedoss_portal.Oauth.State.{
  StateClaims, OauthUserInfo, fetched, Callback, check_callback, decode_state,
}
use trustedoss_portal.Oauth.Resolution.{new_user, insert_identity, resolve_or_create_user}
use trustedoss_portal.Oauth.{Login, stamped, log_in, complete_oauth}
use trustedoss_portal.Oauth.Accounts.{IsUniqueAccount}
use trustedoss_portal.Oauth.Identities.{Unlink, callback, unlink, run}
use trustedoss_portal.Oauth.Logins.{links, complete_oauth-links, run-IsUniqueAccount}
use trustedoss_portal.Oauth.Methods.{is_linked_or_hashed, run_unlinks, unlinks_keep_hash_or_account}

-- User 12 has no password and one account.
abbrev octocat : OauthIdentity
octocat = record {
  id = 151;
  user_id = 12;
  provider = OauthProvider.github;
  provider_user_id = "583231";
  email = "user@example.com";
  avatar_url = none;
  linked_at = 1;
  last_login_at = none;
}

abbrev db : Database
db = record (store new pending ScanStatus.failed) {
  users = record (user_row 12 true false) { hashed_password = "" } ∷ [];
  oauth_identities = octocat ∷ [];
}

db-IsUniqueAccount : IsUniqueAccount db
db-IsUniqueAccount = record { account = λ p id. ground arith; key = λ k. ground arith }

-- A decoder that takes one token.
abbrev decode : String → Option StateClaims
decode token =
    some (record { token_type = some "oauth_state"; provider = some token; redirect_after = none })

abbrev account : OauthUserInfo
account = record {
  provider = OauthProvider.github;
  provider_user_id = "1001";
  email = "new@example.com";
  full_name = some "New";
  avatar_url = none;
}

abbrev first_login : Callback
first_login = record {
  provider = "github";
  code = "code";
  state = "github";
  answer = fetched account;
  now = 9;
  random_hash = "random";
  team_name = "New's Team";
  team_slug = "github-abc123";
  team_description = none;
  fresh_id = 161;
  fresh_jti = 261;
  refresh_expires = 1000;
}

called : check_callback decode first_login ≡ ok account
unfolding check_callback decode_state
called = refl

abbrev after : Database
after = (complete_oauth decode db db first_login).1

abbrev login : Login
login = record { user = new_user first_login account; saved = after }

login-ok : (complete_oauth decode db db first_login).0 ≡ ok login
unfolding complete_oauth check_callback decode_state log_in resolve_or_create_user insert_identity
    stamped order_by insert_in
login-ok = refl

complete_oauth-links_example :
    (info : OauthUserInfo) × (check_callback decode first_login ≡ ok info)
    × ((new_user first_login account).is_active ≡ true)
    × (any (links info 161) (complete_oauth decode db db first_login).1.oauth_identities ≡ true)
complete_oauth-links_example =
    complete_oauth-links decode db first_login login db-IsUniqueAccount login-ok

abbrev digest : String → String
digest s = s

abbrev leave : Unlink
leave = record { user_id = 12; identity_id = 151; audit_id = 171; now = 10 }

run-IsUniqueAccount_example : IsUniqueAccount (
    run decode digest db (
      callback db first_login
      ∷ callback db (record first_login { fresh_id = 162; fresh_jti = 262 })
      ∷ unlink leave
      ∷ []))
run-IsUniqueAccount_example =
    run-IsUniqueAccount decode digest db
      (callback db first_login
        ∷ callback db (record first_login { fresh_id = 162; fresh_jti = 262 })
        ∷ unlink leave
        ∷ [])
      db-IsUniqueAccount

unlinks_keep_hash_or_account_example :
    is_linked_or_hashed (run_unlinks digest db (leave ∷ leave ∷ [])) 12 ≡ true
unlinks_keep_hash_or_account_example =
    unlinks_keep_hash_or_account digest db (leave ∷ leave ∷ []) 12 db-IsUniqueAccount refl
