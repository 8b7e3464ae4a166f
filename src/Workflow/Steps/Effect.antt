-- ===== src/Workflow/Steps/Effect.antt =====
-- What each action of the engine leaves behind: everything on success, nothing on a throw.
use fun_makers_system.Base.{
  ℕ, ◌≡◌, ◌++◌, ◌∷◌, [], List, Option, some, none, arith, ◌==◌, append_assoc, update_where, inl,
  inr,
}
use fun_makers_system.Base.Text.{Text}
use fun_makers_system.Data.Audit.{AuditEntry, workflow_step_approved}
use fun_makers_system.Data.Workflow.{
  WorkflowStep, WorkflowInstance, WorkflowAction, WorkflowEvent, ActionKind, no_metadata,
  step_approved, workflow_approved,
}
use fun_makers_system.Data.Errors.{Error}
use fun_makers_system.Effects.{World, Db, ok, err, transaction}
use fun_makers_system.Effects.Laws.{SameStore, Outcome-cases}
use fun_makers_system.Audit.{audit_log, audit_row}
use fun_makers_system.Workflow.Order.{Loaded, find_next_step}
use fun_makers_system.Workflow.Steps.{
  write_action, check_actor, is_live, approve_step, approve_instance, action_row, audit_entry,
  event_of,
}
use fun_makers_system.Workflow.Steps.Checks.{Checked, check_actor-Reads, check_actor-Checked}

-- The database after the three writes of an action.
abbrev pub written : WorkflowAction → (WorkflowInstance → WorkflowInstance) → AuditEntry → Db → Db
written a f e d = record d {
  audit = d.audit ++ (audit_row e ∷ []);
  workflow = record (d.workflow) {
    actions = d.workflow.actions ++ (a ∷ []);
    instances = update_where (λ i. i.id == a.instance_id) f d.workflow.instances;
  };
}

pub write_action_ok :
    (a : WorkflowAction) (f : WorkflowInstance → WorkflowInstance) (e : AuditEntry) (w : World)
    → (transaction (write_action a f e) w).0 ≡ ok tt
    → ((transaction (write_action a f e) w).1.db ≡ written a f e w.db)
      × ((transaction (write_action a f e) w).1.emitted ≡ w.emitted)
unfolding write_action audit_log
write_action_ok a f e w h = ground arith

pub write_action_err :
    (a : WorkflowAction) (f : WorkflowInstance → WorkflowInstance) (e : AuditEntry) (w : World)
    {x : Error}
    → (transaction (write_action a f e) w).0 ≡ err x
    → SameStore w (transaction (write_action a f e) w).1
unfolding write_action audit_log
write_action_err a f e w h = ground arith

abbrev pub approval_events :
    Loaded → WorkflowStep → ℕ → Option Text → Option WorkflowStep → List WorkflowEvent
approval_events l s actor comment none =
    event_of step_approved l actor (some s.name) comment
    ∷ event_of workflow_approved l actor none comment
    ∷ []
approval_events l s actor comment (some _) =
    event_of step_approved l actor (some s.name) comment ∷ []

pub record Approval (id step_id actor : ℕ) (comment : Option Text) (w w' : World) : Type 0 where
  pub loaded : Loaded
  pub current : WorkflowStep
  pub at : ℕ
  pub checked : Checked is_live id step_id actor w loaded current
  pub db_after :
      w'.db
      ≡ written
          (action_row id step_id actor ActionKind.approved comment at no_metadata)
          (approve_instance (find_next_step loaded.steps current.order_index) at)
          (audit_entry workflow_step_approved id loaded.instance_row.project_id actor comment)
          w.db
  pub emitted_after :
      w'.emitted
      ≡ w.emitted
        ++ approval_events loaded current actor comment
            (find_next_step loaded.steps current.order_index)

-- An approval that returns: the instance was found in progress or returned, at step `step_id`, of
-- whose rule the actor is a valid approver; its action row, the update of the instance (to the next
-- step, or approved where there is none) and the audit row are the only changes of the database; and
-- one event was published, or two where the workflow is complete.
pub approve_step-Approval :
    (id step_id actor : ℕ) (comment : Option Text) (w : World)
    → (approve_step id step_id actor comment w).0 ≡ ok tt
    → Approval id step_id actor comment w (approve_step id step_id actor comment w).1
unfolding approve_step
approve_step-Approval id step_id actor comment w h =
    elim (Outcome-cases (check_actor is_live id step_id actor w).0) [
      | inl ((l, s), c) ↦
          let w' = (check_actor is_live id step_id actor w).1 in
          let at = w'.env.clock w'.tick in
          let next = find_next_step l.steps s.order_index in
          let a = action_row id step_id actor ActionKind.approved comment at no_metadata in
          let e = audit_entry workflow_step_approved id l.instance_row.project_id actor comment in
          let f : WorkflowInstance → WorkflowInstance = approve_instance next at in
          record {
            loaded = l;
            current = s;
            at = at;
            checked = check_actor-Checked is_live id step_id actor w l s c;
            db_after = ground (
              arith,
              c,
              h,
              write_action_ok a f e w',
              check_actor-Reads is_live id step_id actor w,
            );
            emitted_after = ground (
              arith,
              c,
              h,
              write_action_ok a f e w',
              check_actor-Reads is_live id step_id actor w,
              append_assoc w.emitted (event_of step_approved l actor (some s.name) comment ∷ [])
                  (event_of workflow_approved l actor none comment ∷ []),
            );
          }
      | inr (e, c) ↦ absurd (ground arith)
    ]
