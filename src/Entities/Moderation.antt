-- ===== src/Entities/Moderation.antt =====
-- block.entity.ts, mute.entity.ts, report.entity.ts and audit-log.entity.ts.
use componi_back_nest.Prelude.{ℕ, String, Option, List}
use componi_back_nest.Entities.Accounts.{Uuid, Date, UserRole}

pub record Block : Type 0 where
  pub id : Uuid
  pub blocker_id : Uuid
  pub blocked_id : Uuid
  pub reason : Option String
  pub created_at : Date

pub record Mute : Type 0 where
  pub id : Uuid
  pub muter_id : Uuid
  pub muted_id : Uuid
  pub created_at : Date

pub data ReportTargetType : Type 0 where
  component comment user : ReportTargetType

pub data ReportStatus : Type 0 where
  opened reviewing actioned dismissed : ReportStatus

pub data ReportReason : Type 0 where
  spam harassment malicious_code copyright nsfw impersonation other : ReportReason

pub data ReportAction : Type 0 where
  nothing warned content_removed user_suspended user_banned : ReportAction

pub record Report : Type 0 where
  pub id : Uuid
  pub reporter_id : Uuid
  pub target_type : ReportTargetType
  pub target_id : Uuid
  pub reason : ReportReason
  pub details : Option String
  pub status : ReportStatus
  pub resolved_by_id : Option Uuid
  pub resolved_at : Option Date
  pub resolution_note : Option String
  pub action_taken : ReportAction
  pub created_at : Date
  pub updated_at : Date

-- The verbs that the services write into `action`.
pub data AuditAction : Type 0 where
  suspend_user ban_user unsuspend_user erase_user : AuditAction
  delete_component delete_comment : AuditAction
  promote_role demote_role : AuditAction
  resolve_report export_user_data : AuditAction

-- The kind of row that `targetType` names.
pub data AuditTarget : Type 0 where
  user component comment report : AuditTarget

-- The `jsonb` metadata, one constructor for each shape that a service writes.
pub data Metadata : Type 0 where
  none_given : Metadata
  suspension : (hours : ℕ) (until : Date) → Metadata
  role_change : (previous new : UserRole) → Metadata
  -- { via: 'self-service' }
  self_service : Metadata
  -- { via: 'cli', previousRole, newRole }
  cli_role_change : (previous new : UserRole) → Metadata
  exported : (counts : List ℕ) → Metadata
  removed_component : (author : Uuid) (report_id : Option Uuid) → Metadata
  removed_comment : (author component : Uuid) (report_id : Option Uuid) → Metadata
  resolution :
      (status : ReportStatus) (action : ReportAction) (target : ReportTargetType) (id : Uuid)
      (public_reason : Option String)
      → Metadata

pub record AuditLog : Type 0 where
  pub id : Uuid
  pub actor_id : Uuid
  pub action : AuditAction
  pub target_type : Option AuditTarget
  pub target_id : Option Uuid
  pub metadata : Metadata
  pub reason : Option String
  pub ip_address : Option String
  pub user_agent : Option String
  pub created_at : Date
