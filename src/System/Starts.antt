-- ===== src/System/Starts.antt =====
-- The start of an instance: the records and the approved instances stay, and its event vouches for
-- nothing.
use fun_makers_system.Base.{
  ℕ, ◌≡◌, ◌⊎◌, refl, inl, inr, [], ◌∷◌, ◌++◌, arith, All, find-append_old, All-append_one,
}
use fun_makers_system.Data.Workflow.{
  WorkflowEvent, WorkflowEventName, WorkflowTemplate, WorkflowStep,
}
use fun_makers_system.Effects.{World, Db, transaction}
use fun_makers_system.Effects.Laws.{Outcome-cases}
use fun_makers_system.Audit.{audit_log}
use fun_makers_system.Workflow.Order.{find_loaded}
use fun_makers_system.Workflow.Instances.{
  StartParams, start_instance, started_instance, write_start_instance_rows, started_event,
  validate_start_instance,
}
use fun_makers_system.Workflow.Instances.Start.{
  Started, start_instance-Started, validate-Reads, get_instance-Reads,
}
use fun_makers_system.Workflow.Lifecycle.Template.{find_loaded-LoadedFrom}
use fun_makers_system.System.Dispatch.{Vouched}
use fun_makers_system.System.Engine.{Kept}

Started-Kept : (p : StartParams) (d d' : Db) → Started p d d' → Kept d d'
unfolding find_loaded
Started-Kept p d d' v k l h done =
    let f = find_loaded-LoadedFrom k d l h in
    let new = started_instance p v.template v.step v.at v.project.org_id v.id in
    let row = find-append_old (λ i. i.id) k d.workflow.instances l.instance_row new f.row_found in
    ground (arith, v.db_after, row, f.row_found, h)

pub start_instance-Kept :
    (p : StartParams) (w : World)
    → ((start_instance p w).1.db.records ≡ w.db.records) × Kept w.db (start_instance p w).1.db
start_instance-Kept p w = elim (start_instance-Started p w) [
  | inl same ↦ (rw same refl, λ k l h done. rw same h)
  | inr v ↦ (rw v.db_after refl, Started-Kept p w.db (start_instance p w).1.db v)
]

rows_emitted :
    (p : StartParams) (t : WorkflowTemplate) (s : WorkflowStep) (at org_id : ℕ) (w : World)
    → (transaction (write_start_instance_rows p t s at org_id) w).1.emitted ≡ w.emitted
unfolding write_start_instance_rows audit_log
rows_emitted p t s at org_id w = ground arith

-- A start emits nothing, or its own event.
pub start_instance-emitted :
    (p : StartParams) (w : World)
    → ((start_instance p w).1.emitted ≡ w.emitted)
      ⊎ ((e : WorkflowEvent) × (e.name ≡ WorkflowEventName.workflow_started)
          × ((start_instance p w).1.emitted ≡ w.emitted ++ (e ∷ [])))
unfolding start_instance
start_instance-emitted p w = elim (Outcome-cases (validate_start_instance p w).0) [
  | inl ((t, s, q), c) ↦
      let w' = (validate_start_instance p w).1 in
      let at = w'.env.clock w'.tick in
      elim (Outcome-cases (transaction (write_start_instance_rows p t s at q.org_id) w').0) [
        | inl (id, e) ↦
            let v = (transaction (write_start_instance_rows p t s at q.org_id) w').1 in
            let v' : World = record v { emitted = v.emitted ++ (started_event id p t s ∷ []) } in
            inr (
              started_event id p t s,
              refl,
              ground (
                arith,
                c,
                e,
                rows_emitted p t s at q.org_id w',
                validate-Reads p w,
                get_instance-Reads id v',
              ),
            )
        | inr (x, e) ↦
            inl (ground (arith, c, e, rows_emitted p t s at q.org_id w', validate-Reads p w))
      ]
  | inr (x, c) ↦ inl (ground (arith, c, validate-Reads p w))
]

not_approval :
    (d : Db) (e : WorkflowEvent) → e.name ≡ WorkflowEventName.workflow_started → Vouched d e
not_approval d e n q = absurd (ground arith)

pub start_instance-Vouched :
    (p : StartParams) (w : World) (d : Db)
    → All (Vouched d) w.emitted
    → All (Vouched d) (start_instance p w).1.emitted
start_instance-Vouched p w d h = elim (start_instance-emitted p w) [
  | inl same ↦ rw same h
  | inr (e, n, q) ↦ rw q (All-append_one (Vouched d) w.emitted e h (not_approval d e n))
]
