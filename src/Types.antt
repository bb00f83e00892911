-- ===== src/Types.antt =====
-- server/src/types/index.ts: the enumerations and the rows of the tables.
-- Amounts are whole cents (DECIMAL(10,2)); dates are texts YYYY-MM-DD; timestamps are numbers.
use expense_management_syste.Base.{ℕ, Bool, true, false, Option, List, Text}

pub data Role : Type 0 where
  employee manager admin : Role

pub data Status : Type 0 where
  pending approved rejected : Status

pub data Category : Type 0 where
  travel meals supplies equipment software training other : Category

pub data AuditAction : Type 0 where
  submitted resubmitted approved rejected overridden updated deleted : AuditAction

pub data NotificationType : Type 0 where
  expense_submitted expense_resubmitted expense_approved expense_rejected expense_comment :
      NotificationType

-- `===` on the enumerations
abbrev pub role_eq : Role → Role → Bool
role_eq Role.employee Role.employee = true
role_eq Role.manager Role.manager = true
role_eq Role.admin Role.admin = true
role_eq _ _ = false

abbrev pub status_eq : Status → Status → Bool
status_eq Status.pending Status.pending = true
status_eq Status.approved Status.approved = true
status_eq Status.rejected Status.rejected = true
status_eq _ _ = false

pub record User : Type 0 where
  pub id : ℕ
  pub entra_id : Text
  pub email : Text
  pub display_name : Text
  pub role : Role
  pub manager_id : Option ℕ
  pub is_active : Bool
  pub is_demo : Bool
  pub demo_expires_at : Option ℕ
  pub demo_session_id : Option Text
  pub default_currency : Option Text
  pub notify_on_submission : Option Bool
  pub notify_on_decision : Option Bool
  pub notify_on_comment : Option Bool

pub record Expense : Type 0 where
  pub id : ℕ
  pub submitted_by : ℕ
  pub title : Text
  pub description : Option Text
  pub amount : ℕ
  pub currency : Text
  pub category : Category
  pub expense_date : Text
  pub status : Status
  pub approved_by : Option ℕ
  pub rejection_reason : Option Text
  pub version : ℕ
  pub deleted_at : Option ℕ
  pub deleted_by : Option ℕ
  pub created_at : ℕ
  pub updated_at : ℕ

pub record Receipt : Type 0 where
  pub id : ℕ
  pub expense_id : ℕ
  pub file_name : Text
  pub file_path : Text
  pub mime_type : Text
  pub file_size : ℕ
  pub uploaded_at : ℕ

pub record Notification : Type 0 where
  pub id : ℕ
  pub user_id : ℕ
  pub kind : NotificationType
  pub expense_id : Option ℕ
  pub actor_id : Option ℕ
  pub message : Text
  pub is_read : Bool
  pub created_at : ℕ

pub record Comment : Type 0 where
  pub id : ℕ
  pub expense_id : ℕ
  pub author_id : ℕ
  pub body : Text
  pub created_at : ℕ

pub data SecurityEventType : Type 0 where
  auth_failure login_success access_denied account_deactivated role_changed stub_auth_used
        demo_session_issued audit_log_exported rate_limit_exceeded cors_rejected :
      SecurityEventType

pub data SecurityOutcome : Type 0 where
  success failure : SecurityOutcome

-- Less the request's id, and the freeform detail and metadata.
pub record SecurityEvent : Type 0 where
  pub event_type : SecurityEventType
  pub outcome : SecurityOutcome
  pub user_id : Option ℕ
  pub entra_oid : Option Text
  pub role : Option Role
  pub ip_address : Option Text

-- The JSON column `details`, by the shapes that the source writes.
pub data Details : Type 0 where
  updated_fields : List Text → Details
  title_amount : Text → ℕ → Details
  versions : ℕ → ℕ → Details
  rejection : Text → ℕ → ℕ → Details

pub record AuditLog : Type 0 where
  pub id : ℕ
  pub expense_id : ℕ
  pub action : AuditAction
  pub performed_by : ℕ
  pub old_status : Option Status
  pub new_status : Option Status
  pub details : Option Details
  pub ip_address : Option Text
  pub created_at : ℕ
