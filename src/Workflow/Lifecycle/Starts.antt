-- ===== src/Workflow/Lifecycle/Starts.antt =====
-- Starting an instance keeps the invariant of the engine.
use fun_makers_system.Base.{
  ℕ, ◌≡◌, inl, inr, some, none, [], ◌∷◌, arith, ◌==◌, Option-cases, find, find-by_key,
  find-append_new, find-append_old,
}
use fun_makers_system.Data.Workflow.{WorkflowInstance}
use fun_makers_system.Effects.{World, Db}
use fun_makers_system.Workflow.Order.{Loaded, find_loaded, order_by_index}
use fun_makers_system.Workflow.Instances.{
  StartParams, start_instance, started_action, started_instance,
}
use fun_makers_system.Workflow.Instances.Start.{
  find_active_by_code-In, Started, started_db, start_instance-Started,
}
use fun_makers_system.Workflow.Lifecycle.Template.{GoodTemplates-steps, find_loaded-LoadedFrom}
use fun_makers_system.Workflow.Lifecycle.Coverage.{Facts, Facts-append, start-Facts}
use fun_makers_system.Workflow.Lifecycle.Invariant.{EngineInv, EngineInv-same}

-- The rows of a new instance.
module _ (p : StartParams) (d d' : Db) (v : Started p d d') (inv : EngineInv d) where
  abbrev after : Db
  after = started_db p v.template v.step v.at v.project.org_id v.id d

  new_template : find (λ t. t.id == v.template.id) d.workflow.templates ≡ some v.template
  new_template =
      find-by_key (λ t. t.id) d.workflow.templates v.template inv.templates.distinct_ids
        (find_active_by_code-In p.template_code d v.template v.startable.template_found)

  -- An instance with the new id is the new one.
  new_Facts :
      (k : ℕ) (l : Loaded)
      → find (λ i. i.id == k) d.workflow.instances ≡ none
      → find_loaded k after ≡ some l
      → Facts k l after.workflow.actions
  new_Facts k l free h =
      let f = find_loaded-LoadedFrom k after l h in
      let new = started_instance p v.template v.step v.at v.project.org_id v.id in
      let row : l.instance_row ≡ new =
        ground (arith, f.row_found, find-append_new (λ i. i.id) k d.workflow.instances new free) in
      let steps : l.steps ≡ order_by_index v.template.steps =
        ground (arith, row, f.template_found, new_template, f.steps_eq) in
      start-Facts k l v.step after.workflow.actions
        (rw steps (
          GoodTemplates-steps d.workflow.templates v.template inv.templates
            (find_active_by_code-In p.template_code d v.template v.startable.template_found)))
        (rw steps v.startable.first_step) (rw row) (rw row)

  -- The others are as they were.
  old_Facts :
      (k : ℕ) (l : Loaded) (i : WorkflowInstance)
      → find (λ i. i.id == k) d.workflow.instances ≡ some i
      → find_loaded k after ≡ some l
      → Facts k l after.workflow.actions
  unfolding find_loaded
  old_Facts k l i e h =
      let new = started_instance p v.template v.step v.at v.project.org_id v.id in
      let kept = find-append_old (λ i. i.id) k d.workflow.instances i new e in
      Facts-append k l d.workflow.actions (started_action p v.step v.at v.id ∷ [])
        (inv.covered k l (ground (arith, kept, e, h)))

  started-EngineInv : EngineInv after
  started-EngineInv = record {
    templates = inv.templates;
    covered = λ k l h. elim (Option-cases (find (λ i. i.id == k) d.workflow.instances)) [
      | inl free ↦ new_Facts k l free h
      | inr (i, e) ↦ old_Facts k l i e h
    ];
  }

pub start_instance-EngineInv :
    (p : StartParams) (w : World) → EngineInv w.db → EngineInv (start_instance p w).1.db
start_instance-EngineInv p w inv = elim (start_instance-Started p w) [
  | inl same ↦ EngineInv-same same inv
  | inr v ↦ EngineInv-same v.db_after (started-EngineInv p w.db (start_instance p w).1.db v inv)
]
