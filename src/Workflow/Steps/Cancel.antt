-- ===== src/Workflow/Steps/Cancel.antt =====
-- What `cancelInstance` leaves behind when it succeeds.
use fun_makers_system.Base.{ℕ, true, false, ◌≡◌, ◌++◌, ◌∷◌, [], some, arith, inl, inr, Option-cases}
use fun_makers_system.Base.Text.{Text, is_blank}
use fun_makers_system.Data.Audit.{workflow_instance_cancelled}
use fun_makers_system.Data.Workflow.{
  WorkflowInstance, ActionKind, no_metadata, cancelled, workflow_cancelled,
}
use fun_makers_system.Effects.{World, ok}
use fun_makers_system.Effects.Laws.{Reads, Outcome-cases}
use fun_makers_system.Workflow.Order.{Loaded, find_loaded, find_current_step}
use fun_makers_system.Workflow.Steps.{
  is_live, cancel_instance, close_instance, action_row, audit_entry, event_of, name_of,
  get_instance_with_template, check_live,
}
use fun_makers_system.Workflow.Steps.Effect.{written, write_action_ok}

pub record Cancellation (id actor : ℕ) (reason : Text) (w w' : World) : Type 0 where
  pub loaded : Loaded
  pub step_id : ℕ
  pub at : ℕ
  pub reasoned : is_blank reason ≡ false
  pub found : find_loaded id w.db ≡ some loaded
  pub live : is_live loaded.instance_row.status ≡ true
  pub at_step : loaded.instance_row.current_step_id ≡ some step_id
  pub db_after :
      w'.db
      ≡ written
          (action_row id step_id actor ActionKind.cancelled (some reason) at no_metadata)
          (close_instance cancelled at)
          (audit_entry workflow_instance_cancelled id loaded.instance_row.project_id actor
            (some reason))
          w.db
  pub emitted_after :
      w'.emitted
      ≡ w.emitted
        ++ (event_of workflow_cancelled loaded actor
              (name_of (find_current_step loaded))
              (some reason)
            ∷ [])

check_live-loaded :
    (id : ℕ) (w : World) (l : Loaded)
    → (check_live id w).0 ≡ ok l
    → (find_loaded id w.db ≡ some l) × (is_live l.instance_row.status ≡ true)
unfolding check_live get_instance_with_template
check_live-loaded id w l h = ground arith

pub check_live-Reads : (id : ℕ) → Reads (check_live id)
unfolding check_live get_instance_with_template
check_live-Reads id w = ground arith

-- A cancellation that returns: the reason was not blank and the instance was in progress or returned,
-- at some step; the action row, the instance's status and completion time and the audit row are the
-- only changes of the database; and one event was published.
pub cancel_instance-Cancellation :
    (id actor : ℕ) (reason : Text) (w : World)
    → (cancel_instance id actor reason w).0 ≡ ok tt
    → Cancellation id actor reason w (cancel_instance id actor reason w).1
unfolding cancel_instance
cancel_instance-Cancellation id actor reason w h = elim (Outcome-cases (check_live id w).0) [
  | inl (l, e) ↦ elim (Option-cases l.instance_row.current_step_id) [
    | inl n ↦ absurd (ground arith)
    | inr (step_id, c) ↦
        let w' = (check_live id w).1 in
        let at = w'.env.clock w'.tick in
        let f : WorkflowInstance → WorkflowInstance = close_instance cancelled at in
        let a = action_row id step_id actor ActionKind.cancelled (some reason) at no_metadata in
        let b =
          audit_entry workflow_instance_cancelled id l.instance_row.project_id actor
            (some reason) in
        let (found, live) = check_live-loaded id w l e in
        record {
          loaded = l;
          step_id = step_id;
          at = at;
          reasoned = ground (arith, h);
          found = found;
          live = live;
          at_step = c;
          db_after = ground (arith, c, e, h, write_action_ok a f b w', check_live-Reads id w);
          emitted_after = ground (arith, c, e, h, write_action_ok a f b w', check_live-Reads id w);
        }
  ]
  | inr (e, c) ↦ absurd (ground arith)
]
