-- ===== src/Tests/Workflow.antt =====
-- Runs of the workflow engine.
use fun_makers_system.Base.{
  ℕ, ◌≡◌, ◌≢◌, ◌↔◌, ◌+◌, ◌*◌, ◌<◌, ◌≤◌, ◌⊎◌, refl, inl, inr, some, none, List, [], ◌∷◌, true, false,
  In, All, arith,
}
use fun_makers_system.Data.Workflow.{
  WorkflowStep, WorkflowAction, ActionKind, approved, returned, cancelled, no_metadata,
}
use fun_makers_system.Base.Int.{◌-ℤ◌}
use fun_makers_system.Base.Text.{is_blank}
use fun_makers_system.Effects.{World}
use fun_makers_system.Effects.Laws.{SameStore}
use fun_makers_system.Fixtures.{first_step, optional_step, last_step, db, world}
use fun_makers_system.Audit.{audit_log}
use fun_makers_system.Org.{resolve_project_org_id}
use fun_makers_system.Workflow.Order.{
  Loaded, order_by_index, find_loaded, find_current_step, find_next_step, find_previous_step,
}
use fun_makers_system.Workflow.Order.Next.{
  find_next_step_skips_no_required, find_next_step-none, find_previous_step_earlier,
}
use fun_makers_system.Workflow.Order.Twins.{find_next_step_passes_over_twin}
use fun_makers_system.Workflow.Approvers.{
  resolve_approvers, unique, unique_from, resolve_by_user, resolve_approvers_internal,
  is_valid_approver,
}
use fun_makers_system.Workflow.Steps.{
  action_row, get_instance_with_template, check_actor, write_action, approve_step, reject_step,
  return_step, check_live, cancel_instance,
}
use fun_makers_system.Workflow.Steps.Effect.{Approval, approve_step-Approval}
use fun_makers_system.Workflow.Steps.Close.{
  Rejection, reject_step-Rejection, Return, return_step-Return,
}
use fun_makers_system.Workflow.Steps.Cancel.{Cancellation, cancel_instance-Cancellation}
use fun_makers_system.Workflow.Steps.Atomic.{
  approve_step_atomic, reject_step_atomic, return_step_atomic, cancel_instance_atomic,
}
use fun_makers_system.Workflow.Instances.{
  StartParams, newest, find_active_by_code, validate_start_instance, write_start_instance_rows,
  get_instance, start_instance,
}
use fun_makers_system.Workflow.Instances.Start.{Started, start_instance-Started}
use fun_makers_system.Workflow.Sla.{SlaInfo, compute_sla_info, sla_info}
use fun_makers_system.Workflow.Sla.Breach.{
  compute_sla_info_breached_iff, compute_sla_info_untouched_never_breached,
}
use fun_makers_system.Workflow.Lifecycle.{Request, approve, start, perform, perform_all}
use fun_makers_system.Workflow.Lifecycle.Template.{GoodTemplates}
use fun_makers_system.Workflow.Lifecycle.Coverage.{HasApproval}
use fun_makers_system.Workflow.Lifecycle.Runs.{perform_all_approved_covers_required}

abbrev params : StartParams
params = record {
  template_code = 100;
  record_type = 1;
  record_id = 2;
  project_id = 5;
  started_by = 7;
  resolution_source = none;
}

-- The instance gets the id of the fourth call.
abbrev requests : List Request
requests = start params ∷ approve 1003 11 7 none ∷ approve 1003 13 7 none ∷ []

abbrev finished : Loaded
finished = record {
  instance_row = record {
    id = 1003;
    org_id = 1;
    template_id = 1;
    record_type = 1;
    record_id = 2;
    project_id = 5;
    status = approved;
    current_step_id = none;
    started_by = 7;
    started_at = 3;
    completed_at = some 18;
  };
  template_code = 100;
  steps = first_step ∷ optional_step ∷ last_step ∷ [];
}

-- The instance at its first step.
abbrev started : World
started = perform_all (start params ∷ []) world

-- The instance at its last step.
abbrev halfway : World
halfway = perform_all (start params ∷ approve 1003 11 7 none ∷ []) world

good_templates : GoodTemplates db.workflow.templates
good_templates = record { distinct_steps = ground arith; distinct_ids = ground arith }

perform_all_approved_covers_required_example :
    HasApproval 1003 13 (perform_all requests world).db.workflow.actions
unfolding resolve_approvers is_valid_approver validate_start_instance write_start_instance_rows
    get_instance start_instance newest find_active_by_code order_by_index unique unique_from
    resolve_by_user resolve_approvers_internal perform perform_all find_loaded find_current_step
    find_next_step check_actor get_instance_with_template write_action approve_step audit_log
    resolve_project_org_id
perform_all_approved_covers_required_example =
    perform_all_approved_covers_required requests world 1003 finished last_step good_templates refl
      refl refl (inr (inr (inl refl))) refl

approve_step-Approval_example :
    Approval 1003 11 7 none started (approve_step 1003 11 7 none started).1
unfolding resolve_approvers is_valid_approver validate_start_instance write_start_instance_rows
    get_instance start_instance newest find_active_by_code order_by_index unique unique_from
    resolve_by_user resolve_approvers_internal perform perform_all find_loaded find_current_step
    find_next_step check_actor get_instance_with_template write_action approve_step audit_log
    resolve_project_org_id
approve_step-Approval_example = approve_step-Approval 1003 11 7 none started refl

reject_step-Rejection_example :
    Rejection 1003 13 7 (65 ∷ []) halfway (reject_step 1003 13 7 (65 ∷ []) halfway).1
unfolding resolve_approvers is_valid_approver validate_start_instance write_start_instance_rows
    get_instance start_instance newest find_active_by_code order_by_index unique unique_from
    resolve_by_user resolve_approvers_internal perform perform_all find_loaded find_current_step
    find_next_step check_actor get_instance_with_template write_action approve_step audit_log
    resolve_project_org_id reject_step is_blank
reject_step-Rejection_example = reject_step-Rejection 1003 13 7 (65 ∷ []) halfway refl

return_step-Return_example :
    Return 1003 13 7 (65 ∷ []) none halfway (return_step 1003 13 7 (65 ∷ []) none halfway).1
unfolding resolve_approvers is_valid_approver validate_start_instance write_start_instance_rows
    get_instance start_instance newest find_active_by_code order_by_index unique unique_from
    resolve_by_user resolve_approvers_internal perform perform_all find_loaded find_current_step
    find_next_step check_actor get_instance_with_template write_action approve_step audit_log
    resolve_project_org_id return_step find_previous_step is_blank
return_step-Return_example = return_step-Return 1003 13 7 (65 ∷ []) none halfway refl

cancel_instance-Cancellation_example :
    Cancellation 1003 7 (65 ∷ []) halfway (cancel_instance 1003 7 (65 ∷ []) halfway).1
unfolding resolve_approvers is_valid_approver validate_start_instance write_start_instance_rows
    get_instance start_instance newest find_active_by_code order_by_index unique unique_from
    resolve_by_user resolve_approvers_internal perform perform_all find_loaded find_current_step
    find_next_step check_actor get_instance_with_template write_action approve_step audit_log
    resolve_project_org_id cancel_instance check_live is_blank
cancel_instance-Cancellation_example = cancel_instance-Cancellation 1003 7 (65 ∷ []) halfway refl

approve_step_atomic_example : SameStore started (approve_step 1003 11 8 none started).1
unfolding resolve_approvers is_valid_approver validate_start_instance write_start_instance_rows
    get_instance start_instance newest find_active_by_code order_by_index unique unique_from
    resolve_by_user resolve_approvers_internal perform perform_all find_loaded find_current_step
    find_next_step check_actor get_instance_with_template write_action approve_step audit_log
    resolve_project_org_id
approve_step_atomic_example = approve_step_atomic 1003 11 8 none started refl

reject_step_atomic_example : SameStore started (reject_step 1003 11 8 (65 ∷ []) started).1
unfolding resolve_approvers is_valid_approver validate_start_instance write_start_instance_rows
    get_instance start_instance newest find_active_by_code order_by_index unique unique_from
    resolve_by_user resolve_approvers_internal perform perform_all find_loaded find_current_step
    find_next_step check_actor get_instance_with_template write_action approve_step audit_log
    resolve_project_org_id reject_step is_blank
reject_step_atomic_example = reject_step_atomic 1003 11 8 (65 ∷ []) started refl

return_step_atomic_example : SameStore started (return_step 1003 11 7 (65 ∷ []) none started).1
unfolding resolve_approvers is_valid_approver validate_start_instance write_start_instance_rows
    get_instance start_instance newest find_active_by_code order_by_index unique unique_from
    resolve_by_user resolve_approvers_internal perform perform_all find_loaded find_current_step
    find_next_step check_actor get_instance_with_template write_action approve_step audit_log
    resolve_project_org_id return_step find_previous_step is_blank
return_step_atomic_example = return_step_atomic 1003 11 7 (65 ∷ []) none started refl

cancel_instance_atomic_example : SameStore world (cancel_instance 1003 7 (65 ∷ []) world).1
unfolding resolve_approvers is_valid_approver validate_start_instance write_start_instance_rows
    get_instance start_instance newest find_active_by_code order_by_index unique unique_from
    resolve_by_user resolve_approvers_internal perform perform_all find_loaded find_current_step
    find_next_step check_actor get_instance_with_template write_action approve_step audit_log
    resolve_project_org_id cancel_instance check_live is_blank
cancel_instance_atomic_example = cancel_instance_atomic 1003 7 (65 ∷ []) world refl

start_instance-Started_example :
    ((start_instance params world).1.db ≡ world.db)
    ⊎ Started params world.db (start_instance params world).1.db
start_instance-Started_example = start_instance-Started params world

find_next_step_skips_no_required_example : 3 ≤ 3
unfolding find_next_step order_by_index
find_next_step_skips_no_required_example =
    find_next_step_skips_no_required (last_step ∷ optional_step ∷ first_step ∷ []) 1 last_step
      last_step refl (inl refl) refl (ground arith)

find_next_step-none_example : 2 ≤ 3
unfolding find_next_step
find_next_step-none_example =
    find_next_step-none (first_step ∷ optional_step ∷ last_step ∷ []) 3 optional_step refl
      (inr (inl refl))

find_previous_step_earlier_example :
    In optional_step (first_step ∷ optional_step ∷ last_step ∷ []) × (2 < 3)
unfolding find_previous_step
find_previous_step_earlier_example =
    find_previous_step_earlier (first_step ∷ optional_step ∷ last_step ∷ []) 3 none optional_step
      refl

abbrev twin : WorkflowStep
twin = record last_step { id = 14 }

find_next_step_passes_over_twin_example :
    (find_next_step (last_step ∷ twin ∷ []) 3 ≢ some twin)
    × (All (λ s. s.order_index ≤ 3) (last_step ∷ twin ∷ [])
        → find_next_step (last_step ∷ twin ∷ []) 3 ≡ none)
find_next_step_passes_over_twin_example =
    find_next_step_passes_over_twin (last_step ∷ twin ∷ []) last_step twin refl

abbrev acted : ActionKind → ℕ → ℕ → WorkflowAction
acted kind id at = action_row 1003 id 7 kind none at no_metadata

abbrev info : SlaInfo
info = sla_info (some 24) 5 100000000

compute_sla_info_breached_iff_example :
    (info.current_step_started_at ≡ 5)
    × ((info.is_breached ≡ true) ↔ (5 + 24 * 3600000 < 100000000))
unfolding compute_sla_info ◌-ℤ◌
compute_sla_info_breached_iff_example =
    compute_sla_info_breached_iff 13 24 100000000 (acted returned 13 2 ∷ [])
      (acted cancelled 13 6 ∷ acted approved 11 7 ∷ []) (acted ActionKind.started 13 5) last_step
      info refl refl tt (inr (λ n. n), (inl (λ e. absurd (ground arith)), tt)) refl

compute_sla_info_untouched_never_breached_example :
    (compute_sla_info (some 13) halfway.db.workflow.actions (some last_step) 100000000
      ≡ some (sla_info (some 24) 100000000 100000000))
    × ((sla_info (some 24) 100000000 100000000).is_breached ≡ false)
unfolding resolve_approvers is_valid_approver validate_start_instance write_start_instance_rows
    get_instance start_instance newest find_active_by_code order_by_index unique unique_from
    resolve_by_user resolve_approvers_internal perform perform_all find_loaded find_current_step
    find_next_step check_actor get_instance_with_template write_action approve_step audit_log
    resolve_project_org_id
compute_sla_info_untouched_never_breached_example =
    compute_sla_info_untouched_never_breached 13 halfway.db.workflow.actions last_step 100000000
      (ground arith)
