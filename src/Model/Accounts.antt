-- ===== src/Model/Accounts.antt =====
-- apps/backend/models/auth.py: teams, users, memberships and refresh tokens. Columns that no
-- modelled service reads (the hashes of refresh tokens) are left out.
use trustedoss_portal.Prelude.{Bool, String, Option, Uuid, Timestamp}

-- `ROLE_VALUES`; `other` is any string outside that set, which `_ROLE_PRIORITY.get(r, 0)` meets.
pub data Role : Type 0 where
  super_admin team_admin developer : Role
  other : String → Role

-- The deployment; a modelled service only picks the oldest one.
pub record Organization : Type 0 where
  pub id : Uuid
  pub created_at : Timestamp

pub record Team : Type 0 where
  pub id : Uuid
  pub organization_id : Uuid
  pub name : String
  pub slug : String
  pub description : Option String
  pub created_at : Timestamp
  pub updated_at : Timestamp

pub record User : Type 0 where
  pub id : Uuid
  pub email : String
  pub full_name : Option String
  pub hashed_password : String
  pub is_active : Bool
  pub is_superuser : Bool
  pub last_login_at : Option Timestamp
  pub created_at : Timestamp
  pub updated_at : Timestamp

pub record Membership : Type 0 where
  pub id : Uuid
  pub user_id : Uuid
  pub team_id : Uuid
  pub role : Role
  pub updated_at : Timestamp

pub record RefreshToken : Type 0 where
  pub id : Uuid
  pub user_id : Uuid
  pub jti : Uuid
  pub parent_jti : Option Uuid
  pub expires_at : Timestamp
  pub revoked_at : Option Timestamp
  pub revoked_reason : Option String

pub record PasswordResetToken : Type 0 where
  pub id : Uuid
  pub user_id : Uuid
  pub token_hash : String
  pub expires_at : Timestamp
  pub used_at : Option Timestamp
  pub invalidated_at : Option Timestamp
  pub created_at : Timestamp
