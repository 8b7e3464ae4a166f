-- ===== src/System/Requests.antt =====
-- Every request to the engine, whatever becomes of it.
use fun_makers_system.Base.{ℕ, ◌≡◌, ◌≢◌, refl, inl, inr, true, Option, some, List, [], ◌∷◌, arith}
use fun_makers_system.Base.Text.{Text}
use fun_makers_system.Data.Audit.{
  AuditEntry, workflow_step_rejected, workflow_step_returned, workflow_instance_cancelled,
}
use fun_makers_system.Data.Workflow.{
  WorkflowAction, WorkflowInstance, WorkflowEvent, WorkflowEventName, ActionKind, WorkflowStatus,
  no_metadata, return_to_step,
}
use fun_makers_system.Effects.{World, Db}
use fun_makers_system.Effects.Laws.{Outcome-cases, SameStore}
use fun_makers_system.Workflow.Order.{Loaded, find_loaded, find_current_step}
use fun_makers_system.Workflow.Steps.{
  is_live, is_in_progress, return_instance, close_instance, action_row, audit_entry, approve_step,
  reject_step, return_step, cancel_instance, event_of, name_of,
}
use fun_makers_system.Workflow.Steps.Effect.{written, approve_step-Approval}
use fun_makers_system.Workflow.Steps.Close.{reject_step-Rejection, return_step-Return}
use fun_makers_system.Workflow.Steps.Cancel.{cancel_instance-Cancellation}
use fun_makers_system.Workflow.Steps.Atomic.{
  approve_step_atomic, reject_step_atomic, return_step_atomic, cancel_instance_atomic,
}
use fun_makers_system.Workflow.Instances.{StartParams, start_instance}
use fun_makers_system.Workflow.Lifecycle.{
  Request, approve, reject, return_to, cancel, start, perform,
}
use fun_makers_system.System.Starts.{start_instance-Kept, start_instance-Vouched}
use fun_makers_system.System.Engine.{Step, same-Step, written-Kept, live-open, approve-Step}

-- The writes on a live instance, with one event that is no approval.
written-Step :
    (a : WorkflowAction) (f : WorkflowInstance → WorkflowInstance) (e : AuditEntry) (l : Loaded)
    (ev : WorkflowEvent) (d d' : Db) (es : List WorkflowEvent)
    → ((i : WorkflowInstance) → (f i).id ≡ i.id)
    → find_loaded a.instance_id d ≡ some l
    → is_live l.instance_row.status ≡ true
    → ev.name ≢ WorkflowEventName.workflow_approved
    → d' ≡ written a f e d
    → es ≡ ev ∷ []
    → Step d d' es
written-Step a f e l ev d d' es keep_id found live other ed ee =
    rw (ed, ee)
      (record {
        same_records = refl;
        kept = written-Kept a f e d l keep_id found (live-open l live);
        vouched = (λ q. absurd (other q), tt);
      })

in_progress-live : (s : WorkflowStatus) → is_in_progress s ≡ true → is_live s ≡ true
in_progress-live s h = ground arith

-- An action that throws.
failed-Step : (w w' : World) → SameStore w w' → w.emitted ≡ [] → Step w.db w'.db w'.emitted
failed-Step w w' s n =
    let e : w'.emitted ≡ [] = ground (arith, s.same_emitted, n) in
    rw e (same-Step w.db w'.db s.same_db)

approve_step-Step :
    (id step_id actor : ℕ) (comment : Option Text) (w : World)
    → w.emitted ≡ []
    → let w' = (approve_step id step_id actor comment w).1 in Step w.db w'.db w'.emitted
approve_step-Step id step_id actor comment w n =
    elim (Outcome-cases (approve_step id step_id actor comment w).0) [
      | inl (u, e) ↦
          approve-Step id step_id actor comment w (approve_step id step_id actor comment w).1
            (approve_step-Approval id step_id actor comment w e) n
      | inr (x, e) ↦
          failed-Step w (approve_step id step_id actor comment w).1
            (approve_step_atomic id step_id actor comment w e) n
    ]

reject_step-Step :
    (id step_id actor : ℕ) (comment : Text) (w : World)
    → w.emitted ≡ []
    → let w' = (reject_step id step_id actor comment w).1 in Step w.db w'.db w'.emitted
reject_step-Step id step_id actor comment w n =
    elim (Outcome-cases (reject_step id step_id actor comment w).0) [
      | inl (u, e) ↦
          let v = reject_step-Rejection id step_id actor comment w e in
          let w' = (reject_step id step_id actor comment w).1 in
          let l = v.loaded in
          written-Step
            (action_row id step_id actor ActionKind.rejected (some comment) v.at no_metadata)
            (close_instance WorkflowStatus.rejected v.at)
            (audit_entry workflow_step_rejected id l.instance_row.project_id actor (some comment)) l
            (event_of WorkflowEventName.workflow_rejected l actor (some v.current.name)
              (some comment))
            w.db w'.db w'.emitted (λ i. refl) v.checked.loaded v.checked.status_allowed
            (λ q. absurd (ground arith)) v.db_after (ground (arith, v.emitted_after, n))
      | inr (x, e) ↦
          failed-Step w (reject_step id step_id actor comment w).1
            (reject_step_atomic id step_id actor comment w e) n
    ]

return_step-Step :
    (id step_id actor : ℕ) (comment : Text) (to : Option ℕ) (w : World)
    → w.emitted ≡ []
    → let w' = (return_step id step_id actor comment to w).1 in Step w.db w'.db w'.emitted
return_step-Step id step_id actor comment to w n =
    elim (Outcome-cases (return_step id step_id actor comment to w).0) [
      | inl (u, e) ↦
          let v = return_step-Return id step_id actor comment to w e in
          let w' = (return_step id step_id actor comment to w).1 in
          let l = v.loaded in
          written-Step
            (action_row id step_id actor ActionKind.returned (some comment) v.at
              (return_to_step v.target.id))
            (return_instance v.target.id)
            (audit_entry workflow_step_returned id l.instance_row.project_id actor (some comment)) l
            (event_of WorkflowEventName.workflow_returned l actor (some v.current.name)
              (some comment))
            w.db w'.db w'.emitted (λ i. refl) v.checked.loaded
            (in_progress-live l.instance_row.status v.checked.status_allowed)
            (λ q. absurd (ground arith)) v.db_after (ground (arith, v.emitted_after, n))
      | inr (x, e) ↦
          failed-Step w (return_step id step_id actor comment to w).1
            (return_step_atomic id step_id actor comment to w e) n
    ]

cancel_instance-Step :
    (id actor : ℕ) (reason : Text) (w : World)
    → w.emitted ≡ []
    → let w' = (cancel_instance id actor reason w).1 in Step w.db w'.db w'.emitted
cancel_instance-Step id actor reason w n =
    elim (Outcome-cases (cancel_instance id actor reason w).0) [
      | inl (u, e) ↦
          let v = cancel_instance-Cancellation id actor reason w e in
          let w' = (cancel_instance id actor reason w).1 in
          let l = v.loaded in
          written-Step
            (action_row id v.step_id actor ActionKind.cancelled (some reason) v.at no_metadata)
            (close_instance WorkflowStatus.cancelled v.at)
            (audit_entry workflow_instance_cancelled id l.instance_row.project_id actor
              (some reason))
            l
            (event_of WorkflowEventName.workflow_cancelled l actor (name_of (find_current_step l))
              (some reason))
            w.db w'.db w'.emitted (λ i. refl) v.found v.live (λ q. absurd (ground arith)) v.db_after
            (ground (arith, v.emitted_after, n))
      | inr (x, e) ↦
          failed-Step w (cancel_instance id actor reason w).1
            (cancel_instance_atomic id actor reason w e) n
    ]

start_instance-Step :
    (p : StartParams) (w : World)
    → w.emitted ≡ []
    → let w' = (start_instance p w).1 in Step w.db w'.db w'.emitted
start_instance-Step p w n =
    let (r, k) = start_instance-Kept p w in
    record {
      same_records = r;
      kept = k;
      vouched = start_instance-Vouched p w (start_instance p w).1.db (rw n tt);
    }

pub perform-Step :
    (r : Request) (w : World) → w.emitted ≡ [] → Step w.db (perform r w).db (perform r w).emitted
unfolding perform
perform-Step (approve id step_id actor comment) w n = approve_step-Step id step_id actor comment w n
perform-Step (reject id step_id actor comment) w n = reject_step-Step id step_id actor comment w n
perform-Step (return_to id step_id actor comment to) w n =
    return_step-Step id step_id actor comment to w n
perform-Step (cancel id actor reason) w n = cancel_instance-Step id actor reason w n
perform-Step (start p) w n = start_instance-Step p w n
