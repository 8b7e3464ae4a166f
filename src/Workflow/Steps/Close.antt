-- ===== src/Workflow/Steps/Close.antt =====
-- What `rejectStep`, `returnStep` and `cancelInstance` leave behind when they succeed.
use fun_makers_system.Base.{
  ℕ, false, ◌≡◌, ◌++◌, ◌∷◌, [], Option, some, arith, inl, inr, Option-cases,
}
use fun_makers_system.Base.Text.{Text, is_blank}
use fun_makers_system.Data.Audit.{workflow_step_rejected, workflow_step_returned}
use fun_makers_system.Data.Workflow.{
  WorkflowStep, WorkflowInstance, ActionKind, no_metadata, return_to_step, rejected,
  workflow_rejected, workflow_returned,
}
use fun_makers_system.Effects.{World, ok}
use fun_makers_system.Effects.Laws.{Outcome-cases}
use fun_makers_system.Workflow.Order.{Loaded, find_previous_step}
use fun_makers_system.Workflow.Steps.{
  check_actor, is_live, is_in_progress, reject_step, return_step, close_instance, return_instance,
  action_row, audit_entry, event_of,
}
use fun_makers_system.Workflow.Steps.Checks.{Checked, check_actor-Reads, check_actor-Checked}
use fun_makers_system.Workflow.Steps.Effect.{written, write_action_ok}

pub record Rejection (id step_id actor : ℕ) (comment : Text) (w w' : World) : Type 0 where
  pub loaded : Loaded
  pub current : WorkflowStep
  pub at : ℕ
  pub commented : is_blank comment ≡ false
  pub checked : Checked is_live id step_id actor w loaded current
  pub db_after :
      w'.db
      ≡ written
          (action_row id step_id actor ActionKind.rejected (some comment) at no_metadata)
          (close_instance rejected at)
          (audit_entry workflow_step_rejected id loaded.instance_row.project_id actor
            (some comment))
          w.db
  pub emitted_after :
      w'.emitted
      ≡ w.emitted
        ++ (event_of workflow_rejected loaded actor (some current.name) (some comment) ∷ [])

-- A rejection that returns: the comment was not blank, the instance was in progress or returned, at
-- step `step_id`, of whose rule the actor is a valid approver; the action row, the instance's status
-- and completion time and the audit row are the only changes of the database; and one event was
-- published.
pub reject_step-Rejection :
    (id step_id actor : ℕ) (comment : Text) (w : World)
    → (reject_step id step_id actor comment w).0 ≡ ok tt
    → Rejection id step_id actor comment w (reject_step id step_id actor comment w).1
unfolding reject_step
reject_step-Rejection id step_id actor comment w h =
    elim (Outcome-cases (check_actor is_live id step_id actor w).0) [
      | inl ((l, s), c) ↦
          let w' = (check_actor is_live id step_id actor w).1 in
          let at = w'.env.clock w'.tick in
          let f : WorkflowInstance → WorkflowInstance = close_instance rejected at in
          let a = action_row id step_id actor ActionKind.rejected (some comment) at no_metadata in
          let e =
            audit_entry workflow_step_rejected id l.instance_row.project_id actor (some comment) in
          record {
            loaded = l;
            current = s;
            at = at;
            commented = ground (arith, h);
            checked = check_actor-Checked is_live id step_id actor w l s c;
            db_after = ground (
              arith,
              c,
              h,
              write_action_ok a f e w',
              check_actor-Reads is_live id step_id actor w,
            );
            emitted_after = ground (
              arith,
              c,
              h,
              write_action_ok a f e w',
              check_actor-Reads is_live id step_id actor w,
            );
          }
      | inr (e, c) ↦ absurd (ground arith)
    ]

pub record Return (id step_id actor : ℕ) (comment : Text) (to : Option ℕ) (w w' : World)
    : Type 0 where
  pub loaded : Loaded
  pub current : WorkflowStep
  pub target : WorkflowStep
  pub at : ℕ
  pub commented : is_blank comment ≡ false
  pub checked : Checked is_in_progress id step_id actor w loaded current
  pub target_found : find_previous_step loaded.steps current.order_index to ≡ some target
  pub db_after :
      w'.db
      ≡ written
          (action_row id step_id actor ActionKind.returned
            (some comment)
            at
            (return_to_step target.id))
          (return_instance target.id)
          (audit_entry workflow_step_returned id loaded.instance_row.project_id actor
            (some comment))
          w.db
  pub emitted_after :
      w'.emitted
      ≡ w.emitted
        ++ (event_of workflow_returned loaded actor (some current.name) (some comment) ∷ [])

-- A return that returns: the comment was not blank, the instance was in progress, at step `step_id`,
-- of whose rule the actor is a valid approver, and there was a step to go back to; the action row with
-- that step, the instance's step and status and the audit row are the only changes of the database;
-- and one event was published.
pub return_step-Return :
    (id step_id actor : ℕ) (comment : Text) (to : Option ℕ) (w : World)
    → (return_step id step_id actor comment to w).0 ≡ ok tt
    → Return id step_id actor comment to w (return_step id step_id actor comment to w).1
unfolding return_step
return_step-Return id step_id actor comment to w h =
    elim (Outcome-cases (check_actor is_in_progress id step_id actor w).0) [
      | inl ((l, s), c) ↦ elim (Option-cases (find_previous_step l.steps s.order_index to)) [
        | inl n ↦ absurd (ground arith)
        | inr (t, e) ↦
            let w' = (check_actor is_in_progress id step_id actor w).1 in
            let at = w'.env.clock w'.tick in
            let f : WorkflowInstance → WorkflowInstance = return_instance t.id in
            let a =
              action_row id step_id actor ActionKind.returned (some comment) at
                (return_to_step t.id) in
            let b =
              audit_entry workflow_step_returned id l.instance_row.project_id actor
                (some comment) in
            record {
              loaded = l;
              current = s;
              target = t;
              at = at;
              commented = ground (arith, h);
              checked = check_actor-Checked is_in_progress id step_id actor w l s c;
              target_found = e;
              db_after = ground (
                arith,
                c,
                h,
                write_action_ok a f b w',
                check_actor-Reads is_in_progress id step_id actor w,
              );
              emitted_after = ground (
                arith,
                c,
                h,
                write_action_ok a f b w',
                check_actor-Reads is_in_progress id step_id actor w,
              );
            }
      ]
      | inr (e, c) ↦ absurd (ground arith)
    ]
