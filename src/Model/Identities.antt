-- ===== src/Model/Identities.antt =====
-- apps/backend/models/oauth_identity.py: external accounts linked to users.
use trustedoss_portal.Prelude.{String, Option, Uuid, Timestamp}

pub data OauthProvider : Type 0 where
  github google : OauthProvider

pub record OauthIdentity : Type 0 where
  pub id : Uuid
  pub user_id : Uuid
  pub provider : OauthProvider
  pub provider_user_id : String
  pub email : String
  pub avatar_url : Option String
  pub linked_at : Timestamp
  pub last_login_at : Option Timestamp
