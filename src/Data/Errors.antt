-- ===== src/Data/Errors.antt =====
-- What the services throw: a constructor for each error class or message, and two for what the
-- database driver throws by itself.
use fun_makers_system.Base.{ℕ, Option}
use fun_makers_system.Data.Audit.{OverrideActionType}
use fun_makers_system.Data.Workflow.{WorkflowStatus}
use fun_makers_system.Data.Records.{RecordType, RecordStatus, RecordAction}

pub data Error : Type 0 where
  -- The call of the database failed, or it refused a write (no such row, unique key taken).
  driver_failure write_refused : Error
  -- `findUniqueOrThrow`
  record_not_found : Error
  actor_required : Error
  -- packages/core/src/workflow
  comment_required reason_required no_previous_step step_not_in_template : Error
  instance_not_found : ℕ → Error
  step_mismatch : ℕ → ℕ → Option ℕ → Error
  not_a_valid_approver : ℕ → ℕ → Error
  invalid_instance_status : ℕ → WorkflowStatus → Error
  invalid_return_step : ℕ → Error
  no_approvers_found : Error
  template_not_active project_not_found template_has_no_steps : ℕ → Error
  duplicate_instance : ℕ → ℕ → Error
  -- packages/core/src/posting
  unknown_event_type event_type_registered : ℕ → Error
  payload_invalid : ℕ → Error
  posting_event_not_found posting_exception_not_found : ℕ → Error
  exception_already_resolved posting_not_reversible posting_already_reversed : Error
  -- packages/core/src/audit/override.ts
  override_not_permitted second_approver_required : OverrideActionType → Error
  self_approval_prohibited : OverrideActionType → Error
  -- The status transitions of records (packages/core/src/procurement and commercial).
  unknown_action : RecordType → RecordAction → Error
  scope_mismatch : RecordType → ℕ → Error
  terminal_status : RecordType → RecordStatus → Error
  invalid_transition : RecordType → RecordStatus → RecordStatus → Error
  workflow_managed : RecordType → RecordAction → Error
  approval_blocked : Error
  quotation_required quotation_of_other_rfq quotation_not_shortlisted : Error
