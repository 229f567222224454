-- ===== src/Oauth/State.antt =====
-- apps/backend/services/oauth_service.py: the state of a login, and a callback up to the user record that
-- the provider gives. `decode` is the JWT decoder, none for a bad signature or an expired token.
use trustedoss_portal.Prelude.{
  String, Bool, false, not, Option, none, some, str_eq, if◌then◌else◌, Uuid, Timestamp, Result, ok,
  err, guard, ◌>>=◌, ◌>>◌, require,
}
use trustedoss_portal.Model.{OauthProvider}

-- `missing_greenlet` is what the async session raises on an attribute that a rollback has expired.
pub data OauthError : Type 0 where
  provider_unknown provider_unavailable invalid_state callback_failed user_inactive : OauthError
  no_organization integrity_error stale_data missing_greenlet : OauthError

-- The claims of a state token.
pub record StateClaims : Type 0 where
  pub token_type : Option String
  pub provider : Option String
  pub redirect_after : Option String

pub record OauthUserInfo : Type 0 where
  pub provider : OauthProvider
  pub provider_user_id : String
  pub email : String
  pub full_name : Option String
  pub avatar_url : Option String

-- What the exchange of the code and the read of the user record end with.
pub data ProviderAnswer : Type 0 where
  disabled rejected : ProviderAnswer
  fetched : OauthUserInfo → ProviderAnswer

pub record Callback : Type 0 where
  pub provider : String
  pub code : String
  pub state : String
  pub answer : ProviderAnswer
  pub now : Timestamp
  pub random_hash : String
  pub team_name : String
  pub team_slug : String
  pub team_description : Option String
  pub fresh_id : Uuid
  pub fresh_jti : Uuid
  pub refresh_expires : Timestamp

-- `get_provider`
abbrev pub provider_named : String → Option OauthProvider
provider_named name =
    if str_eq name "github"
    then some OauthProvider.github
    else if str_eq name "google"
    then some OauthProvider.google
    else none

abbrev pub claimed : Option String → String → Bool
claimed none value = false
claimed (some s) value = str_eq s value

-- `_decode_state`
unfoldable pub decode_state :
    (String → Option StateClaims) → String → String → Result OauthError StateClaims
decode_state decode state expected_provider = do
  guard (not (str_eq state "")) invalid_state
  claims ← require (decode state) invalid_state
  guard (claimed claims.token_type "oauth_state") invalid_state
  guard (claimed claims.provider expected_provider) invalid_state
  ok claims

abbrev pub user_info_of : ProviderAnswer → Result OauthError OauthUserInfo
user_info_of disabled = err provider_unavailable
user_info_of rejected = err callback_failed
user_info_of (fetched info) = ok info

-- The callback up to the user record of the provider.
unfoldable pub check_callback :
    (String → Option StateClaims) → Callback → Result OauthError OauthUserInfo
check_callback decode req = do
  _ ← require (provider_named req.provider) provider_unknown
  _ ← decode_state decode req.state req.provider
  guard (not (str_eq req.code "")) invalid_state
  user_info_of req.answer
