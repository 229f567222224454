-- ===== src/Model/Keys.antt =====
-- apps/backend/models/api_key.py: the API keys and the webhook deliveries.
use trustedoss_portal.Prelude.{String, Option, Text, Uuid, Timestamp}
use trustedoss_portal.Model.Scans.{Provider}

-- `API_KEY_SCOPE_VALUES`; `other` is any text outside that set, which a caller may ask for.
pub data KeyScope : Type 0 where
  org team project : KeyScope
  other : String → KeyScope

pub record ApiKey : Type 0 where
  pub id : Uuid
  pub key_prefix : Text
  pub key_hash : Text
  pub name : String
  pub scope : KeyScope
  pub team_id : Option Uuid
  pub project_id : Option Uuid
  pub created_by_user_id : Option Uuid
  pub created_at : Timestamp
  pub last_used_at : Option Timestamp
  pub revoked_at : Option Timestamp
  pub revoked_by_user_id : Option Uuid

pub record WebhookDelivery : Type 0 where
  pub id : Uuid
  pub provider : Provider
  pub delivery_id : Text
  pub event_type : Text
  pub payload_hash : Text
  pub received_at : Timestamp
  pub project_id : Option Uuid
  pub enqueued_scan_id : Option Uuid
