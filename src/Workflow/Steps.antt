-- ===== src/Workflow/Steps.antt =====
-- packages/core/src/workflow/steps.ts: approve, reject and return a step, and cancel an instance.
pub mod Checks
pub mod Effect
pub mod Close
pub mod Cancel
pub mod Atomic
use fun_makers_system.Base.{
  ℕ, Bool, true, false, not, Option, none, some, List, [], ◌∷◌, ◌++◌, ◌==◌, find, update_where,
}
use fun_makers_system.Base.Text.{Text, is_blank}
use fun_makers_system.Data.Audit.{
  AuditAction, AuditEntry, user, workflow_step_approved, workflow_step_rejected,
  workflow_step_returned, workflow_instance_cancelled,
}
use fun_makers_system.Data.Workflow.{
  WorkflowStep, WorkflowInstance, WorkflowStatus, in_progress, returned, approved, rejected,
  cancelled, WorkflowAction, ActionKind, Metadata, no_metadata, return_to_step, WorkflowEvent,
  WorkflowEventName, step_approved, workflow_approved, workflow_rejected, workflow_returned,
  workflow_cancelled,
}
use fun_makers_system.Data.Errors.{
  Error, comment_required, reason_required, no_previous_step, step_not_in_template,
  instance_not_found, step_mismatch, not_a_valid_approver, invalid_instance_status,
  invalid_return_step, write_refused,
}
use fun_makers_system.Effects.{
  Db, Action, ◌>>=◌, ◌>>◌, pure, throw, throw_if, or_throw, query, command, now, emit, transaction,
}
use fun_makers_system.Audit.{audit_log}
use fun_makers_system.Workflow.Order.{
  Loaded, find_loaded, find_current_step, find_next_step, find_previous_step, is_step,
}
use fun_makers_system.Workflow.Approvers.{is_valid_approver}

-- The instances that an approver may still act on.
abbrev pub is_live : WorkflowStatus → Bool
is_live in_progress = true
is_live returned = true
is_live _ = false

abbrev pub is_in_progress : WorkflowStatus → Bool
is_in_progress in_progress = true
is_in_progress _ = false

unfoldable pub get_instance_with_template : ℕ → Action Loaded
get_instance_with_template instance_id = do
  found ← query (find_loaded instance_id)
  or_throw found (instance_not_found instance_id)

-- The checks that `approveStep`, `rejectStep` and `returnStep` share, in their order: the status, the
-- step, and the approver.
unfoldable pub check_actor : (WorkflowStatus → Bool) → ℕ → ℕ → ℕ → Action (Loaded × WorkflowStep)
check_actor allowed instance_id step_id actor_user_id = do
  l ← get_instance_with_template instance_id
  throw_if (not (allowed l.instance_row.status))
      (invalid_instance_status instance_id l.instance_row.status)
  throw_if (not (is_step l.instance_row.current_step_id step_id))
      (step_mismatch instance_id step_id l.instance_row.current_step_id)
  current ← or_throw (find_current_step l) step_not_in_template
  valid ← is_valid_approver actor_user_id current.approver_rule l.instance_row.project_id
  throw_if (not valid) (not_a_valid_approver actor_user_id step_id)
  pure (l, current)

abbrev pub append_action : WorkflowAction → Db → Option Db
append_action a d =
    some (record d { workflow = record (d.workflow) { actions = d.workflow.actions ++ (a ∷ []) } })

abbrev pub with_instances : Db → List WorkflowInstance → Db
with_instances d is = record d { workflow = record (d.workflow) { instances = is } }

abbrev pub if_found : Option WorkflowInstance → Db → Option Db
if_found none d = none
if_found (some _) d = some d

-- `workflowInstance.update`
abbrev pub update_instance : ℕ → (WorkflowInstance → WorkflowInstance) → Db → Option Db
update_instance id f d =
    if_found (find (λ i. i.id == id) d.workflow.instances)
      (with_instances d (update_where (λ i. i.id == id) f d.workflow.instances))

-- The three writes of one action: its row, the instance, the audit row.
unfoldable pub write_action :
    WorkflowAction → (WorkflowInstance → WorkflowInstance) → AuditEntry → Action (Unit {0})
write_action a f e = do
  command (append_action a)
  command (update_instance a.instance_id f)
  audit_log e
  pure tt

abbrev pub action_row : ℕ → ℕ → ℕ → ActionKind → Option Text → ℕ → Metadata → WorkflowAction
action_row instance_id step_id actor kind comment at metadata = record {
  instance_id = instance_id;
  step_id = step_id;
  actor_user_id = actor;
  action = kind;
  comment = comment;
  acted_at = at;
  metadata = metadata;
}

abbrev pub audit_entry : AuditAction → ℕ → ℕ → ℕ → Option Text → AuditEntry
audit_entry action instance_id project_id actor reason = record {
  actor_user_id = some actor;
  actor_source = user;
  action = action;
  resource_id = instance_id;
  project_id = some project_id;
  org_id = none;
  reason = reason;
}

abbrev pub event_of : WorkflowEventName → Loaded → ℕ → Option ℕ → Option Text → WorkflowEvent
event_of name l actor step_name comment = record {
  name = name;
  instance_id = l.instance_row.id;
  template_code = l.template_code;
  record_type = l.instance_row.record_type;
  record_id = l.instance_row.record_id;
  project_id = l.instance_row.project_id;
  actor_user_id = actor;
  step_name = step_name;
  comment = comment;
}

abbrev pub step_id_of : Option WorkflowStep → Option ℕ
step_id_of none = none
step_id_of (some s) = some s.id

abbrev pub status_after : Option WorkflowStep → WorkflowStatus
status_after none = approved
status_after (some _) = in_progress

abbrev pub completed_after : Option WorkflowStep → ℕ → Option ℕ
completed_after none at = some at
completed_after (some _) at = none

-- Approval moves the instance to the next step, or completes it.
abbrev pub approve_instance : Option WorkflowStep → ℕ → WorkflowInstance → WorkflowInstance
approve_instance next at i = record i {
  current_step_id = step_id_of next;
  status = status_after next;
  completed_at = completed_after next at;
}

abbrev pub emit_if_complete : Option WorkflowStep → WorkflowEvent → Action (Unit {0})
emit_if_complete none e = emit e
emit_if_complete (some _) e = pure tt

-- `approveStep`
unfoldable pub approve_step : ℕ → ℕ → ℕ → Option Text → Action (Unit {0})
approve_step instance_id step_id actor comment = do
  (l, current) ← check_actor is_live instance_id step_id actor
  at ← now
  let next = find_next_step l.steps current.order_index
  transaction (
      write_action (action_row instance_id step_id actor ActionKind.approved comment at no_metadata)
        (approve_instance next at)
        (audit_entry workflow_step_approved instance_id l.instance_row.project_id actor comment))
  emit (event_of step_approved l actor (some current.name) comment)
  emit_if_complete next (event_of workflow_approved l actor none comment)

abbrev pub close_instance : WorkflowStatus → ℕ → WorkflowInstance → WorkflowInstance
close_instance status at i = record i { status = status; completed_at = some at }

-- `rejectStep`
unfoldable pub reject_step : ℕ → ℕ → ℕ → Text → Action (Unit {0})
reject_step instance_id step_id actor comment = do
  throw_if (is_blank comment) comment_required
  (l, current) ← check_actor is_live instance_id step_id actor
  at ← now
  transaction (
      write_action
        (action_row instance_id step_id actor ActionKind.rejected (some comment) at no_metadata)
        (close_instance rejected at)
        (audit_entry workflow_step_rejected instance_id l.instance_row.project_id actor
          (some comment)))
  emit (event_of workflow_rejected l actor (some current.name) (some comment))

abbrev pub missing_target : Option ℕ → Error
missing_target none = no_previous_step
missing_target (some id) = invalid_return_step id

abbrev pub return_instance : ℕ → WorkflowInstance → WorkflowInstance
return_instance target_id i = record i { current_step_id = some target_id; status = returned }

-- `returnStep`
unfoldable pub return_step : ℕ → ℕ → ℕ → Text → Option ℕ → Action (Unit {0})
return_step instance_id step_id actor comment return_to_step_id = do
  throw_if (is_blank comment) comment_required
  (l, current) ← check_actor is_in_progress instance_id step_id actor
  target ←
      or_throw (find_previous_step l.steps current.order_index return_to_step_id)
        (missing_target return_to_step_id)
  at ← now
  transaction (
      write_action
        (action_row instance_id step_id actor ActionKind.returned (some comment) at
          (return_to_step target.id))
        (return_instance target.id)
        (audit_entry workflow_step_returned instance_id l.instance_row.project_id actor
          (some comment)))
  emit (event_of workflow_returned l actor (some current.name) (some comment))

abbrev pub name_of : Option WorkflowStep → Option ℕ
name_of none = none
name_of (some s) = some s.name

-- What `cancelInstance` does in its transaction. `stepId: instance.currentStepId!`: the column is not
-- null, so the driver refuses a missing step.
abbrev pub write_cancellation : Option ℕ → Loaded → ℕ → Text → ℕ → ℕ → Action (Unit {0})
write_cancellation none l actor reason at instance_id = throw write_refused
write_cancellation (some step_id) l actor reason at instance_id =
    write_action
      (action_row instance_id step_id actor ActionKind.cancelled (some reason) at no_metadata)
      (close_instance cancelled at)
      (audit_entry workflow_instance_cancelled instance_id l.instance_row.project_id actor
        (some reason))

-- The instances that `cancelInstance` takes.
unfoldable pub check_live : ℕ → Action Loaded
check_live instance_id = do
  l ← get_instance_with_template instance_id
  throw_if (not (is_live l.instance_row.status))
      (invalid_instance_status instance_id l.instance_row.status)
  pure l

-- `cancelInstance`
unfoldable pub cancel_instance : ℕ → ℕ → Text → Action (Unit {0})
cancel_instance instance_id actor reason = do
  throw_if (is_blank reason) reason_required
  l ← check_live instance_id
  at ← now
  transaction (write_cancellation l.instance_row.current_step_id l actor reason at instance_id)
  emit (event_of workflow_cancelled l actor (name_of (find_current_step l)) (some reason))
