-- ===== src/Workflow/Lifecycle/Invariant.antt =====
-- The invariant of the engine, and that each action keeps it.
use fun_makers_system.Base.{
  ℕ, ◌≡◌, ◌≢◌, inl, inr, refl, sym, ◌∙◌, Option, some, [], ◌∷◌, ◌++◌, true, arith, ◌==◌, ==_iff,
  Bool-cases, find-In,
}
use mathlib.Core.Path.{subst}
use fun_makers_system.Base.Text.{Text}
use fun_makers_system.Data.Audit.{
  AuditEntry, workflow_step_approved, workflow_step_rejected, workflow_step_returned,
  workflow_instance_cancelled,
}
use fun_makers_system.Data.Workflow.{
  WorkflowStep, WorkflowAction, WorkflowInstance, ActionKind, rejected, cancelled, no_metadata,
  return_to_step,
}
use fun_makers_system.Effects.{World, Db}
use fun_makers_system.Effects.Laws.{Outcome-cases}
use fun_makers_system.Workflow.Order.{
  Loaded, find_loaded, find_current_step, find_next_step, is_step,
}
use fun_makers_system.Workflow.Steps.{
  approve_step, reject_step, return_step, cancel_instance, approve_instance, return_instance,
  close_instance, action_row, audit_entry,
}
use fun_makers_system.Workflow.Steps.Effect.{written, approve_step-Approval}
use fun_makers_system.Workflow.Steps.Close.{reject_step-Rejection, return_step-Return}
use fun_makers_system.Workflow.Steps.Cancel.{cancel_instance-Cancellation}
use fun_makers_system.Workflow.Steps.Atomic.{
  approve_step_atomic, reject_step_atomic, return_step_atomic, cancel_instance_atomic,
}
use fun_makers_system.Workflow.Lifecycle.Template.{
  GoodTemplates, loaded-GoodSteps, find_loaded-changed, find_loaded-other,
}
use fun_makers_system.Workflow.Lifecycle.Coverage.{
  Facts, Facts-append, approve-Facts, return-Facts, closed-Facts,
}

pub record EngineInv (d : Db) : Type 0 where
  pub templates : GoodTemplates d.workflow.templates
  pub covered : (id : ℕ) (l : Loaded) → find_loaded id d ≡ some l → Facts id l d.workflow.actions

pub EngineInv-same : {d d' : Db} → d' ≡ d → EngineInv d → EngineInv d'
EngineInv-same e inv = subst EngineInv (sym e) inv

-- The writes of an action keep the invariant if they do for the instance acted on.
written-EngineInv :
    (a : WorkflowAction) (f : WorkflowInstance → WorkflowInstance) (e : AuditEntry) (d : Db)
    (l : Loaded)
    → ((i : WorkflowInstance) → (f i).id ≡ i.id)
    → ((i : WorkflowInstance) → (f i).template_id ≡ i.template_id)
    → EngineInv d
    → find_loaded a.instance_id d ≡ some l
    → ((l' : Loaded)
        → l'.steps ≡ l.steps
        → l'.instance_row ≡ f l.instance_row
        → Facts a.instance_id l' (d.workflow.actions ++ (a ∷ [])))
    → EngineInv (written a f e d)
written-EngineInv a f e d l keep_id keep_template inv found facts = record {
  templates = inv.templates;
  covered = λ k l' h. elim (Bool-cases (k == a.instance_id)) [
    | inl y ↦
        let q : k ≡ a.instance_id = (==_iff k a.instance_id).0 y in
        let (er, es) =
          find_loaded-changed a.instance_id d (written a f e d) f l l' keep_id keep_template refl
            refl found (rw q at h) in
        rw q (facts l' es er)
    | inr n ↦
        let ne : k ≢ a.instance_id = λ q. cc (n, (==_iff k a.instance_id).1 q) in
        let same = find_loaded-other a.instance_id k d (written a f e d) f ne keep_id refl refl in
        Facts-append k l' d.workflow.actions (a ∷ []) (inv.covered k l' (sym same ∙ h))
  ];
}

-- The step that was asked for is the current one.
asked_step :
    (l : Loaded) (c : WorkflowStep) (step_id : ℕ)
    → is_step l.instance_row.current_step_id step_id ≡ true
    → find_current_step l ≡ some c
    → step_id ≡ c.id
unfolding find_current_step
asked_step l c step_id e f =
    let (m, k) = find-In (λ s. is_step l.instance_row.current_step_id s.id) l.steps c f in
    ground arith

pub approve_step-EngineInv :
    (id step_id actor : ℕ) (comment : Option Text) (w : World)
    → EngineInv w.db
    → EngineInv (approve_step id step_id actor comment w).1.db
approve_step-EngineInv id step_id actor comment w inv =
    elim (Outcome-cases (approve_step id step_id actor comment w).0) [
      | inl (u, e) ↦
          let v = approve_step-Approval id step_id actor comment w e in
          let l = v.loaded in
          let c = v.current in
          let a = action_row id step_id actor ActionKind.approved comment v.at no_metadata in
          EngineInv-same v.db_after (
            written-EngineInv a (approve_instance (find_next_step l.steps c.order_index) v.at)
              (audit_entry workflow_step_approved id l.instance_row.project_id actor comment) w.db l
              (λ i. refl) (λ i. refl) inv v.checked.loaded
              (approve-Facts id l c w.db.workflow.actions a
                (loaded-GoodSteps id w.db l inv.templates v.checked.loaded)
                (inv.covered id l v.checked.loaded) v.checked.step_found refl
                (asked_step l c step_id v.checked.at_step v.checked.step_found) refl v.at))
      | inr (x, e) ↦ EngineInv-same (approve_step_atomic id step_id actor comment w e).same_db inv
    ]

pub reject_step-EngineInv :
    (id step_id actor : ℕ) (comment : Text) (w : World)
    → EngineInv w.db
    → EngineInv (reject_step id step_id actor comment w).1.db
reject_step-EngineInv id step_id actor comment w inv =
    elim (Outcome-cases (reject_step id step_id actor comment w).0) [
      | inl (u, e) ↦
          let v = reject_step-Rejection id step_id actor comment w e in
          let l = v.loaded in
          let a = action_row id step_id actor ActionKind.rejected (some comment) v.at no_metadata in
          EngineInv-same v.db_after (
            written-EngineInv a (close_instance rejected v.at)
              (audit_entry workflow_step_rejected id l.instance_row.project_id actor (some comment))
              w.db l (λ i. refl) (λ i. refl) inv v.checked.loaded
              (λ l' es er.
                closed-Facts id l l' w.db.workflow.actions a (inv.covered id l v.checked.loaded) es
                  (rw er) (rw er) (λ q. cc (q, er))))
      | inr (x, e) ↦ EngineInv-same (reject_step_atomic id step_id actor comment w e).same_db inv
    ]

pub return_step-EngineInv :
    (id step_id actor : ℕ) (comment : Text) (to : Option ℕ) (w : World)
    → EngineInv w.db
    → EngineInv (return_step id step_id actor comment to w).1.db
return_step-EngineInv id step_id actor comment to w inv =
    elim (Outcome-cases (return_step id step_id actor comment to w).0) [
      | inl (u, e) ↦
          let v = return_step-Return id step_id actor comment to w e in
          let l = v.loaded in
          let a =
            action_row id step_id actor ActionKind.returned (some comment) v.at
              (return_to_step v.target.id) in
          EngineInv-same v.db_after (
            written-EngineInv a (return_instance v.target.id)
              (audit_entry workflow_step_returned id l.instance_row.project_id actor (some comment))
              w.db l (λ i. refl) (λ i. refl) inv v.checked.loaded
              (λ l' es er.
                return-Facts id l l' v.current v.target to w.db.workflow.actions a
                  (loaded-GoodSteps id w.db l inv.templates v.checked.loaded)
                  (inv.covered id l v.checked.loaded) v.checked.step_found v.target_found es er))
      | inr (x, e) ↦ EngineInv-same (return_step_atomic id step_id actor comment to w e).same_db inv
    ]

pub cancel_instance-EngineInv :
    (id actor : ℕ) (reason : Text) (w : World)
    → EngineInv w.db
    → EngineInv (cancel_instance id actor reason w).1.db
cancel_instance-EngineInv id actor reason w inv =
    elim (Outcome-cases (cancel_instance id actor reason w).0) [
      | inl (u, e) ↦
          let v = cancel_instance-Cancellation id actor reason w e in
          let l = v.loaded in
          let a =
            action_row id v.step_id actor ActionKind.cancelled (some reason) v.at no_metadata in
          EngineInv-same v.db_after (
            written-EngineInv a (close_instance cancelled v.at)
              (audit_entry workflow_instance_cancelled id l.instance_row.project_id actor
                (some reason))
              w.db l (λ i. refl) (λ i. refl) inv v.found
              (λ l' es er.
                closed-Facts id l l' w.db.workflow.actions a (inv.covered id l v.found) es (rw er)
                  (rw er) (λ q. cc (q, er))))
      | inr (x, e) ↦ EngineInv-same (cancel_instance_atomic id actor reason w e).same_db inv
    ]
