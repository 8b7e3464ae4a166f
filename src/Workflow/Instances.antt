-- ===== src/Workflow/Instances.antt =====
-- packages/core/src/workflow/instances.ts: starting an instance, and reading it back.
pub mod Start
use fun_makers_system.Base.{
  ℕ, Bool, true, false, Option, none, some, List, [], ◌∷◌, ◌++◌, ◌==◌, ltb, if◌then◌else◌, find,
  select, first,
}
use fun_makers_system.Data.Access.{Project}
use fun_makers_system.Data.Audit.{workflow_instance_started}
use fun_makers_system.Data.Workflow.{
  WorkflowStep, WorkflowTemplate, WorkflowInstance, in_progress, WorkflowAction, ActionKind,
  ResolutionSource, Metadata, no_metadata, resolution, WorkflowEvent, workflow_started,
}
use fun_makers_system.Data.Errors.{
  template_not_active, project_not_found, template_has_no_steps, duplicate_instance,
  instance_not_found,
}
use fun_makers_system.Effects.{
  Db, Action, ◌>>=◌, ◌>>◌, pure, throw_if, or_throw, query, command, create, now, emit, transaction,
}
use fun_makers_system.Audit.{audit_log}
use fun_makers_system.Workflow.Order.{Loaded, order_by_index, find_loaded}
use fun_makers_system.Workflow.Steps.{is_live, append_action, with_instances, audit_entry}

-- `StartInstanceParams`
pub record StartParams : Type 0 where
  pub template_code : ℕ
  pub record_type : ℕ
  pub record_id : ℕ
  pub project_id : ℕ
  pub started_by : ℕ
  pub resolution_source : Option ResolutionSource

abbrev pub newer : WorkflowTemplate → Option WorkflowTemplate → Option WorkflowTemplate
newer t none = some t
newer t (some u) = if ltb t.version u.version then some u else some t

-- `orderBy: { version: 'desc' }` and the first row.
unfoldable pub newest : List WorkflowTemplate → Option WorkflowTemplate
newest [] = none
newest (t ∷ ts) = newer t (newest ts)

-- `workflowTemplateService.findActiveByCode`
unfoldable pub find_active_by_code : ℕ → Db → Option WorkflowTemplate
find_active_by_code code d =
    newest (select (λ t. if t.code == code then t.is_active else false) d.workflow.templates)

abbrev pub is_live_for : ℕ → ℕ → WorkflowInstance → Bool
is_live_for record_type record_id i =
    if i.record_type == record_type
    then (if i.record_id == record_id then is_live i.status else false)
    else false

abbrev pub exists : Option WorkflowInstance → Bool
exists none = false
exists (some _) = true

-- `validateStartInstance`
unfoldable pub validate_start_instance :
    StartParams → Action (WorkflowTemplate × WorkflowStep × Project)
unfolding find_active_by_code
validate_start_instance p = do
  t ← query (find_active_by_code p.template_code)
  template ← or_throw t (template_not_active p.template_code)
  q ← query (λ d. find (λ q. q.id == p.project_id) d.access.projects)
  project ← or_throw q (project_not_found p.project_id)
  existing ← query (λ d. find (is_live_for p.record_type p.record_id) d.workflow.instances)
  throw_if (exists existing) (duplicate_instance p.record_type p.record_id)
  first_step ←
      or_throw (first (order_by_index template.steps)) (template_has_no_steps p.template_code)
  pure (template, first_step, project)

abbrev pub started_instance :
    StartParams → WorkflowTemplate → WorkflowStep → ℕ → ℕ → ℕ → WorkflowInstance
started_instance p t s at org_id id = record {
  id = id;
  org_id = org_id;
  template_id = t.id;
  record_type = p.record_type;
  record_id = p.record_id;
  project_id = p.project_id;
  status = in_progress;
  current_step_id = some s.id;
  started_by = p.started_by;
  started_at = at;
  completed_at = none;
}

-- The primary key refuses an id that is taken.
abbrev pub insert_instance : WorkflowInstance → Db → Option Db
insert_instance i d =
    if exists (find (λ j. j.id == i.id) d.workflow.instances)
    then none
    else some (with_instances d (d.workflow.instances ++ (i ∷ [])))

abbrev pub resolution_metadata : Option ResolutionSource → Metadata
resolution_metadata none = no_metadata
resolution_metadata (some r) = resolution r

abbrev pub started_action : StartParams → WorkflowStep → ℕ → ℕ → WorkflowAction
started_action p s at id = record {
  instance_id = id;
  step_id = s.id;
  actor_user_id = p.started_by;
  action = ActionKind.started;
  comment = none;
  acted_at = at;
  metadata = resolution_metadata p.resolution_source;
}

-- `writeStartInstanceRows`, which returns the new instance's id.
unfoldable pub write_start_instance_rows :
    StartParams → WorkflowTemplate → WorkflowStep → ℕ → ℕ → Action ℕ
write_start_instance_rows p t s at org_id = do
  id ← create (λ id d. insert_instance (started_instance p t s at org_id id) d)
  command (append_action (started_action p s at id))
  audit_log (audit_entry workflow_instance_started id p.project_id p.started_by none)
  pure id

-- `buildStartedPayload`
abbrev pub started_event : ℕ → StartParams → WorkflowTemplate → WorkflowStep → WorkflowEvent
started_event id p t s = record {
  name = workflow_started;
  instance_id = id;
  template_code = t.code;
  record_type = p.record_type;
  record_id = p.record_id;
  project_id = p.project_id;
  actor_user_id = p.started_by;
  step_name = some s.name;
  comment = none;
}

-- The read that ends `startInstance` (`getInstance`, without the view that it computes).
unfoldable pub get_instance : ℕ → Action Loaded
get_instance id = do found ← query (find_loaded id); or_throw found (instance_not_found id)

-- `startInstance`
unfoldable pub start_instance : StartParams → Action Loaded
start_instance p = do
  (t, s, project) ← validate_start_instance p
  at ← now
  id ← transaction (write_start_instance_rows p t s at project.org_id)
  emit (started_event id p t s)
  get_instance id

-- `startInstanceDeferred`: the same writes in the caller's transaction; the event is returned, and the
-- caller hands it to `dispatch_deferred` after the commit.
unfoldable pub start_instance_deferred : StartParams → Action (ℕ × WorkflowEvent)
start_instance_deferred p = do
  (t, s, project) ← validate_start_instance p
  at ← now
  id ← write_start_instance_rows p t s at project.org_id
  pure (id, started_event id p t s)

-- `dispatchDeferred` (packages/core/src/workflow/deferred.ts)
unfoldable pub dispatch_deferred : Option WorkflowEvent → Action (Unit {0})
dispatch_deferred none = pure tt
dispatch_deferred (some e) = emit e
