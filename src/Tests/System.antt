-- ===== src/Tests/System.antt =====
-- Runs of the whole system: a purchase order is submitted, approved and issued.
use fun_makers_system.Base.{◌≡◌, ◌⊎◌, refl, some, none, List, [], ◌∷◌, arith}
use fun_makers_system.Base.Int.{pos}
use fun_makers_system.Data.Records.{RecordType, RecordStatus, RecordAction, RecordRow}
use fun_makers_system.Data.Workflow.{WorkflowEvent, WorkflowEventName, system_default}
use fun_makers_system.Effects.{World, ok}
use fun_makers_system.Fixtures.{world, db}
use fun_makers_system.Posting.Registry.{Registry, parsed}
use fun_makers_system.Workflow.Lifecycle.{approve}
use fun_makers_system.Workflow.Lifecycle.Template.{GoodTemplates}
use fun_makers_system.Workflow.Resolution.{TemplateCodes}
use fun_makers_system.Workflow.Resolution.Tiers.{
  choose_template, choose_standard, resolve_template_chooses, resolve_template_complete,
}
use fun_makers_system.Workflow.Bus.Total.{dispatch_all_returns}
use fun_makers_system.Convergence.Lost.{handle_po_approved_once}
use fun_makers_system.Transitions.{TransitionInput}
use fun_makers_system.System.Delivery.{SystemRequest, engine, purchase_order}
use fun_makers_system.System.Refusals.{
  serve_terminal_unchanged, submitted_purchase_order_is_stranded,
}
use fun_makers_system.System.ByHand.{vendor_contract_approved_by_hand}
use fun_makers_system.Convergence.Redelivery.{HasStatus}
use fun_makers_system.Transitions.Services.{transition_vendor_contract}
use fun_makers_system.System.Runs.{ApprovedBy, serve_all_approves_by_workflow}
use fun_makers_system.System.Delivery.{serve, serve_all}
use fun_makers_system.Transitions.Services.{transition_purchase_order, after_po}
use fun_makers_system.Transitions.{
  check_transition, check_row, assert_project_scope, write_transition, start_workflow,
  start_resolved,
}
use fun_makers_system.Workflow.Resolution.{
  resolve_template, resolve_below, system_tiers, registry_mode,
}
use fun_makers_system.Workflow.Instances.{
  start_instance, validate_start_instance, newest, find_active_by_code, write_start_instance_rows,
  get_instance,
}
use fun_makers_system.Workflow.Order.{
  order_by_index, find_loaded, find_current_step, find_next_step,
}
use fun_makers_system.Workflow.Lifecycle.{perform}
use fun_makers_system.Workflow.Steps.{
  approve_step, check_actor, get_instance_with_template, write_action,
}
use fun_makers_system.Workflow.Approvers.{
  is_valid_approver, resolve_approvers, resolve_approvers_internal, unique, unique_from,
  resolve_by_user,
}
use fun_makers_system.Workflow.Bus.{dispatch_all, dispatch}
use fun_makers_system.Convergence.Dispatch.{
  convergence_bus, on_workflow_approved, on_workflow_returned, on_workflow_rejected, wired_type,
}
use fun_makers_system.Convergence.Procurement.{handle_po_approved, absorb_and_post_po}
use fun_makers_system.Convergence.{
  converge, converge_found, converge_unless, write_status, post_record,
}
use fun_makers_system.Budget.Absorption.{
  absorb_po_commitment_handler, absorb_po, guarded, on_category, on_line, change_line,
}
use fun_makers_system.Budget.Lines.{
  resolve_budget_line, resolve_in_budget, resolve_by_code, resolve_in_category,
}
use fun_makers_system.Posting.Service.{post, post_parsed, existing_or_new, write_posted}
use fun_makers_system.Audit.{audit_log}
use fun_makers_system.Org.{resolve_project_org_id}
use fun_makers_system.Base.Int.{◌+ℤ◌}
use fun_makers_system.Posting.Registry.{validate_payload}

abbrev codes : TemplateCodes
codes = record { standard = λ k. 100; high_value = λ k. 200 }

abbrev registry : Registry
registry =
    record { name = 103; schema = λ p. parsed p }
    ∷ record { name = 106; schema = λ p. parsed p }
    ∷ []

abbrev move : RecordAction → TransitionInput
move a = record { project_id = 5; id = 50; action = a; comment = none; actor_user_id = 7 }

abbrev run : List SystemRequest
run =
    purchase_order (move RecordAction.submit)
    ∷ engine (approve 1010 11 7 none)
    ∷ engine (approve 1010 13 7 none)
    ∷ purchase_order (move RecordAction.issue)
    ∷ []

abbrev order : RecordStatus → RecordRow
order s = record {
  kind = RecordType.purchase_order;
  id = 50;
  project_id = 5;
  entity_id = none;
  status = s;
  amount = pos 1000;
  drawing_id = none;
  details = 20;
}

good_templates : GoodTemplates db.workflow.templates
good_templates = record { distinct_steps = ground arith; distinct_ids = ground arith }

serve_all_approves_by_workflow_example :
    ApprovedBy RecordType.purchase_order 50 (serve_all registry codes run world).db
unfolding serve serve_all transition_purchase_order check_transition check_row assert_project_scope
    write_transition after_po start_workflow start_resolved resolve_template resolve_below
    system_tiers registry_mode start_instance validate_start_instance newest find_active_by_code
    write_start_instance_rows get_instance order_by_index find_loaded perform approve_step
    check_actor get_instance_with_template find_current_step find_next_step write_action
    is_valid_approver resolve_approvers resolve_approvers_internal unique unique_from
    resolve_by_user dispatch_all dispatch convergence_bus on_workflow_approved on_workflow_returned
    on_workflow_rejected wired_type handle_po_approved converge converge_found converge_unless
    write_status absorb_and_post_po absorb_po_commitment_handler absorb_po guarded on_category
    on_line resolve_budget_line resolve_in_budget resolve_by_code resolve_in_category change_line
    post_record post post_parsed existing_or_new write_posted audit_log resolve_project_org_id ◌+ℤ◌
    validate_payload
serve_all_approves_by_workflow_example =
    serve_all_approves_by_workflow registry codes run world RecordType.purchase_order 50
      (order RecordStatus.issued) good_templates refl (refl, tt) refl refl

-- The order is submitted.
abbrev submitted : World
submitted = serve_all registry codes (purchase_order (move RecordAction.submit) ∷ []) world

submitted_purchase_order_is_stranded_example :
    (transition_purchase_order registry codes (move RecordAction.approve) submitted).1.db
    ≡ submitted.db
unfolding serve serve_all transition_purchase_order check_transition check_row assert_project_scope
    write_transition after_po start_workflow start_resolved resolve_template resolve_below
    system_tiers registry_mode start_instance validate_start_instance newest find_active_by_code
    write_start_instance_rows get_instance order_by_index find_loaded audit_log
    resolve_project_org_id
submitted_purchase_order_is_stranded_example =
    submitted_purchase_order_is_stranded registry codes (move RecordAction.approve) submitted
      (order RecordStatus.submitted) refl refl

abbrev rejected : World
rejected = record world {
  db = record db { records = record (db.records) { rows = order RecordStatus.rejected ∷ [] } };
}

serve_terminal_unchanged_example :
    (serve registry codes (purchase_order (move RecordAction.submit)) rejected).db ≡ rejected.db
serve_terminal_unchanged_example =
    serve_terminal_unchanged registry codes (purchase_order (move RecordAction.submit)) rejected
      (order RecordStatus.rejected, refl, refl)

resolve_template_chooses_example :
    (some (record { code = 100; source = system_default })
      ≡ choose_template codes 6 5 (some (pos 1000)) db)
    ⊎ (some (record { code = 100; source = system_default }) ≡ choose_standard codes 6 5 db)
unfolding resolve_template resolve_below system_tiers registry_mode
resolve_template_chooses_example =
    resolve_template_chooses codes 6 5 (some (pos 1000)) world
      (some (record { code = 100; source = system_default })) refl

resolve_template_complete_example :
    (resolve_template codes 6 5 (some (pos 1000)) world).0
    ≡ ok (choose_template codes 6 5 (some (pos 1000)) db)
resolve_template_complete_example =
    resolve_template_complete codes 6 5 (some (pos 1000)) world (λ n. refl)

abbrev contract_world : World
contract_world = record world {
  db = record db {
    records = record (db.records) {
      rows = record (order RecordStatus.under_review) { kind = RecordType.vendor_contract } ∷ [];
    };
  };
}

vendor_contract_approved_by_hand_example :
    HasStatus RecordType.vendor_contract 50 RecordStatus.approved_internal
      (transition_vendor_contract [] (move RecordAction.approve) contract_world).1.db
vendor_contract_approved_by_hand_example =
    vendor_contract_approved_by_hand [] (move RecordAction.approve) contract_world
      (record (order RecordStatus.under_review) { kind = RecordType.vendor_contract }) refl refl
      refl refl refl refl

abbrev approval : WorkflowEvent
approval = record {
  name = WorkflowEventName.workflow_approved;
  instance_id = 1010;
  template_code = 100;
  record_type = 6;
  record_id = 50;
  project_id = 5;
  actor_user_id = 7;
  step_name = none;
  comment = none;
}

handle_po_approved_once_example :
    (handle_po_approved registry approval (handle_po_approved registry approval world).1).1.db
    ≡ (handle_po_approved registry approval world).1.db
handle_po_approved_once_example =
    handle_po_approved_once registry approval world (order RecordStatus.draft) refl refl refl

dispatch_all_returns_example : (dispatch_all (convergence_bus []) (approval ∷ []) world).0 ≡ ok tt
dispatch_all_returns_example = dispatch_all_returns (convergence_bus []) (approval ∷ []) world
