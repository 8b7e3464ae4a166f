-- ===== src/Workflow/Steps/Checks.antt =====
-- What the shared checks of an action establish.
use fun_makers_system.Base.{ℕ, Bool, true, ◌≡◌, some, arith}
use fun_makers_system.Data.Workflow.{WorkflowStatus, WorkflowStep}
use fun_makers_system.Effects.{World, ok, advance}
use fun_makers_system.Effects.Laws.{Reads}
use fun_makers_system.Workflow.Order.{Loaded, find_loaded, find_current_step, is_step}
use fun_makers_system.Workflow.Approvers.{is_valid_approver}
use fun_makers_system.Workflow.Approvers.Reads.{is_valid_approver-Reads}
use fun_makers_system.Workflow.Steps.{get_instance_with_template, check_actor}

pub get_instance-Reads : (id : ℕ) → Reads (get_instance_with_template id)
unfolding get_instance_with_template
get_instance-Reads id w = ground arith

pub check_actor-Reads :
    (allowed : WorkflowStatus → Bool) (id step_id actor : ℕ)
    → Reads (check_actor allowed id step_id actor)
unfolding check_actor get_instance_with_template
check_actor-Reads allowed id step_id actor w = grind (arith, is_valid_approver-Reads)

-- The facts under which an action goes ahead, in the world where it was called.
pub record Checked (allowed : WorkflowStatus → Bool) (id step_id actor : ℕ) (w : World) (l : Loaded)
    (s : WorkflowStep) : Type 0 where
  pub loaded : find_loaded id w.db ≡ some l
  pub status_allowed : allowed l.instance_row.status ≡ true
  pub at_step : is_step l.instance_row.current_step_id step_id ≡ true
  pub step_found : find_current_step l ≡ some s
  pub valid :
      (is_valid_approver actor s.approver_rule l.instance_row.project_id (advance w)).0 ≡ ok true

pub check_actor-Checked :
    (allowed : WorkflowStatus → Bool) (id step_id actor : ℕ) (w : World) (l : Loaded)
    (s : WorkflowStep)
    → (check_actor allowed id step_id actor w).0 ≡ ok (l, s)
    → Checked allowed id step_id actor w l s
unfolding check_actor get_instance_with_template
check_actor-Checked allowed id step_id actor w l s h = ground arith
