-- ===== src/Workflow/Steps/Atomic.antt =====
-- An action that throws has changed nothing.
use fun_makers_system.Base.{ℕ, ◌≡◌, Option, some, arith, inl, inr, Option-cases}
use fun_makers_system.Base.Text.{Text}
use fun_makers_system.Data.Audit.{
  workflow_step_approved, workflow_step_rejected, workflow_step_returned,
  workflow_instance_cancelled,
}
use fun_makers_system.Data.Workflow.{
  WorkflowInstance, ActionKind, no_metadata, return_to_step, rejected, cancelled,
}
use fun_makers_system.Data.Errors.{Error}
use fun_makers_system.Effects.{World, err}
use fun_makers_system.Effects.Laws.{SameStore, Outcome-cases}
use fun_makers_system.Workflow.Order.{find_next_step, find_previous_step}
use fun_makers_system.Workflow.Steps.{
  check_actor, is_live, is_in_progress, approve_step, reject_step, return_step, cancel_instance,
  close_instance, return_instance, approve_instance, action_row, audit_entry, check_live,
}
use fun_makers_system.Workflow.Steps.Checks.{check_actor-Reads}
use fun_makers_system.Workflow.Steps.Effect.{write_action_err}
use fun_makers_system.Workflow.Steps.Cancel.{check_live-Reads}

-- An approval that throws has changed no row and published nothing.
pub approve_step_atomic :
    (id step_id actor : ℕ) (comment : Option Text) (w : World) {x : Error}
    → (approve_step id step_id actor comment w).0 ≡ err x
    → SameStore w (approve_step id step_id actor comment w).1
unfolding approve_step
approve_step_atomic id step_id actor comment w {x} h =
    elim (Outcome-cases (check_actor is_live id step_id actor w).0) [
      | inl ((l, s), c) ↦
          let w' = (check_actor is_live id step_id actor w).1 in
          let at = w'.env.clock w'.tick in
          let f : WorkflowInstance → WorkflowInstance =
            approve_instance (find_next_step l.steps s.order_index) at in
          let a = action_row id step_id actor ActionKind.approved comment at no_metadata in
          let e = audit_entry workflow_step_approved id l.instance_row.project_id actor comment in
          ground (
            arith,
            c,
            h,
            write_action_err a f e w' {x = x},
            check_actor-Reads is_live id step_id actor w,
          )
      | inr (e, c) ↦ ground (arith, c, check_actor-Reads is_live id step_id actor w)
    ]

-- A rejection that throws has changed no row and published nothing.
pub reject_step_atomic :
    (id step_id actor : ℕ) (comment : Text) (w : World) {x : Error}
    → (reject_step id step_id actor comment w).0 ≡ err x
    → SameStore w (reject_step id step_id actor comment w).1
unfolding reject_step
reject_step_atomic id step_id actor comment w {x} h =
    elim (Outcome-cases (check_actor is_live id step_id actor w).0) [
      | inl ((l, s), c) ↦
          let w' = (check_actor is_live id step_id actor w).1 in
          let at = w'.env.clock w'.tick in
          let f : WorkflowInstance → WorkflowInstance = close_instance rejected at in
          let a = action_row id step_id actor ActionKind.rejected (some comment) at no_metadata in
          let e =
            audit_entry workflow_step_rejected id l.instance_row.project_id actor (some comment) in
          ground (
            arith,
            c,
            h,
            write_action_err a f e w' {x = x},
            check_actor-Reads is_live id step_id actor w,
          )
      | inr (e, c) ↦ ground (arith, c, check_actor-Reads is_live id step_id actor w)
    ]

-- A return that throws has changed no row and published nothing.
pub return_step_atomic :
    (id step_id actor : ℕ) (comment : Text) (to : Option ℕ) (w : World) {x : Error}
    → (return_step id step_id actor comment to w).0 ≡ err x
    → SameStore w (return_step id step_id actor comment to w).1
unfolding return_step
return_step_atomic id step_id actor comment to w {x} h =
    elim (Outcome-cases (check_actor is_in_progress id step_id actor w).0) [
      | inl ((l, s), c) ↦ elim (Option-cases (find_previous_step l.steps s.order_index to)) [
        | inl n ↦ ground (arith, c, check_actor-Reads is_in_progress id step_id actor w)
        | inr (t, n) ↦
            let w' = (check_actor is_in_progress id step_id actor w).1 in
            let at = w'.env.clock w'.tick in
            let f : WorkflowInstance → WorkflowInstance = return_instance t.id in
            let a =
              action_row id step_id actor ActionKind.returned (some comment) at
                (return_to_step t.id) in
            let e =
              audit_entry workflow_step_returned id l.instance_row.project_id actor
                (some comment) in
            ground (
              arith,
              c,
              h,
              write_action_err a f e w' {x = x},
              check_actor-Reads is_in_progress id step_id actor w,
            )
      ]
      | inr (e, c) ↦ ground (arith, c, check_actor-Reads is_in_progress id step_id actor w)
    ]

-- A cancellation that throws has changed no row and published nothing.
pub cancel_instance_atomic :
    (id actor : ℕ) (reason : Text) (w : World) {x : Error}
    → (cancel_instance id actor reason w).0 ≡ err x
    → SameStore w (cancel_instance id actor reason w).1
unfolding cancel_instance
cancel_instance_atomic id actor reason w {x} h = elim (Outcome-cases (check_live id w).0) [
  | inl (l, e) ↦ elim (Option-cases l.instance_row.current_step_id) [
    | inl n ↦ ground (arith, e, check_live-Reads id w)
    | inr (step_id, c) ↦
        let w' = (check_live id w).1 in
        let at = w'.env.clock w'.tick in
        let f : WorkflowInstance → WorkflowInstance = close_instance cancelled at in
        let a = action_row id step_id actor ActionKind.cancelled (some reason) at no_metadata in
        let b =
          audit_entry workflow_instance_cancelled id l.instance_row.project_id actor
            (some reason) in
        ground (arith, c, e, h, write_action_err a f b w' {x = x}, check_live-Reads id w)
  ]
  | inr (e, c) ↦ ground (arith, c, check_live-Reads id w)
]
