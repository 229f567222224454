-- ===== src/Model/Audit.antt =====
-- apps/backend/models: the audit log, as far as core/audit.py writes it and the services read it.
use trustedoss_portal.Prelude.{String, Option, Uuid, Timestamp, List}

-- A JSON value of a diff: `_serialize_value` turns a UUID and a moment into their texts.
pub data DiffValue : Type 0 where
  null : DiffValue
  text : String → DiffValue
  uuid_text : Uuid → DiffValue
  iso_text : Timestamp → DiffValue

-- `identity_unlinked` is the `oauth.identity.unlinked` of oauth_identity_service.py.
pub data AuditAction : Type 0 where
  create update delete identity_unlinked : AuditAction

pub record AuditLog : Type 0 where
  pub id : Uuid
  pub actor_user_id : Option Uuid
  pub action : AuditAction
  pub target_table : String
  pub target_id : Option Uuid
  pub diff : List (String × DiffValue)
  pub created_at : Timestamp
