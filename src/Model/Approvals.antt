-- ===== src/Model/Approvals.antt =====
-- apps/backend/models/component_approval.py, and the component row of models/scan.py that an
-- approval is about.
use trustedoss_portal.Prelude.{ℕ, String, Option, Uuid, Timestamp}

pub data ApprovalStatus : Type 0 where
  pending under_review approved rejected : ApprovalStatus

pub record Component : Type 0 where
  pub id : Uuid
  pub name : String

pub record ComponentApproval : Type 0 where
  pub id : Uuid
  pub component_id : Uuid
  pub project_id : Uuid
  pub team_id : Uuid
  pub requested_by_user_id : Option Uuid
  pub requested_at : Timestamp
  pub status : ApprovalStatus
  pub decided_by_user_id : Option Uuid
  pub decided_at : Option Timestamp
  pub decision_note : Option String
  pub version : ℕ
