-- ===== src/Data/Audit.antt =====
-- The audit log and the override log (packages/core/src/audit).
use fun_makers_system.Base.{ℕ, Option}
use fun_makers_system.Base.Text.{Text}
use fun_makers_system.Data.Records.{RecordType, Trigger}

pub data ActorSource : Type 0 where
  user system agent job : ActorSource

-- Ids, codes and names are numbers throughout: the source only compares them.
pub data OverrideActionType : Type 0 where
  workflow_force_progress workflow_force_close workflow_reassign_approver : OverrideActionType
  document_unsign document_delete posting_reverse_silently : OverrideActionType
  project_assignment_revoke_immediately user_unlock_account : OverrideActionType
  user_force_password_reset reference_data_bulk_edit : OverrideActionType

-- The literals that the modelled services pass as `action`.
pub data AuditAction : Type 0 where
  workflow_instance_started workflow_step_approved workflow_step_rejected : AuditAction
  workflow_step_returned workflow_instance_cancelled : AuditAction
  posting_event_posted posting_event_reversed : AuditAction
  posting_exception_retried posting_exception_retry_failed posting_exception_resolved : AuditAction
  absorb_po_commitment reverse_po_commitment absorb_supplier_invoice_actual : AuditAction
  absorb_expense_actual absorb_credit_note_reversal : AuditAction
  override : OverrideActionType → AuditAction
  transition : RecordType → Trigger → AuditAction

-- `AuditEntry`, without the JSON snapshots, the ip and the user agent.
pub record AuditEntry : Type 0 where
  pub actor_user_id : Option ℕ
  pub actor_source : ActorSource
  pub action : AuditAction
  pub resource_id : ℕ
  pub project_id : Option ℕ
  pub org_id : Option ℕ
  pub reason : Option Text

pub record AuditRow : Type 0 where
  pub entry : AuditEntry
  pub row_org_id : ℕ

pub record OverrideRow : Type 0 where
  pub org_id : ℕ
  pub override_type : OverrideActionType
  pub overrider_user_id : ℕ
  pub reason : Text
  pub approved_by : Option ℕ
