-- ===== src/Workflow/Instances/Start.antt =====
-- What `startInstance` leaves behind: the three rows of a new instance, or nothing.
use fun_makers_system.Base.{
  List, In, Bool-cases, ltb, select, select-In, if◌then◌else◌, false, ℕ, ◌≡◌, ◌⊎◌, inl, inr, ◌++◌,
  ◌∷◌, [], some, none, arith, find, first, ◌==◌, Option-cases,
}
use fun_makers_system.Data.Access.{Project}
use fun_makers_system.Data.Audit.{workflow_instance_started}
use fun_makers_system.Data.Workflow.{WorkflowStep, WorkflowTemplate}
use fun_makers_system.Data.Errors.{Error}
use fun_makers_system.Effects.{World, Db, ok, err, transaction}
use fun_makers_system.Effects.Laws.{SameStore, Reads, Outcome-cases}
use fun_makers_system.Audit.{audit_log, audit_row}
use fun_makers_system.Workflow.Order.{order_by_index}
use fun_makers_system.Workflow.Steps.{audit_entry}
use fun_makers_system.Workflow.Instances.{
  StartParams, newest, find_active_by_code, is_live_for, validate_start_instance,
  write_start_instance_rows, started_instance, started_action, start_instance, get_instance,
  started_event,
}

pub validate-Reads : (p : StartParams) → Reads (validate_start_instance p)
unfolding validate_start_instance
validate-Reads p w = ground arith

-- What the checks of a start establish.
pub record Startable (p : StartParams) (d : Db) (t : WorkflowTemplate) (s : WorkflowStep)
    (q : Project) : Type 0 where
  pub template_found : find_active_by_code p.template_code d ≡ some t
  pub project_found : find (λ q. q.id == p.project_id) d.access.projects ≡ some q
  pub no_live : find (is_live_for p.record_type p.record_id) d.workflow.instances ≡ none
  pub first_step : first (order_by_index t.steps) ≡ some s

pub validate-Startable :
    (p : StartParams) (w : World) (t : WorkflowTemplate) (s : WorkflowStep) (q : Project)
    → (validate_start_instance p w).0 ≡ ok (t, s, q)
    → Startable p w.db t s q
unfolding validate_start_instance
validate-Startable p w t s q h = ground arith

abbrev pub started_db : StartParams → WorkflowTemplate → WorkflowStep → ℕ → ℕ → ℕ → Db → Db
started_db p t s at org_id id d = record d {
  audit =
      d.audit
      ++ (audit_row (audit_entry workflow_instance_started id p.project_id p.started_by none) ∷ []);
  workflow = record (d.workflow) {
    actions = d.workflow.actions ++ (started_action p s at id ∷ []);
    instances = d.workflow.instances ++ (started_instance p t s at org_id id ∷ []);
  };
}

pub start_rows_ok :
    (p : StartParams) (t : WorkflowTemplate) (s : WorkflowStep) (at org_id : ℕ) (w : World) (id : ℕ)
    → (transaction (write_start_instance_rows p t s at org_id) w).0 ≡ ok id
    → (find (λ i. i.id == id) w.db.workflow.instances ≡ none)
      × ((transaction (write_start_instance_rows p t s at org_id) w).1.db
          ≡ started_db p t s at org_id id w.db)
unfolding write_start_instance_rows audit_log
start_rows_ok p t s at org_id w id h = ground arith

pub start_rows_err :
    (p : StartParams) (t : WorkflowTemplate) (s : WorkflowStep) (at org_id : ℕ) (w : World)
    (x : Error)
    → (transaction (write_start_instance_rows p t s at org_id) w).0 ≡ err x
    → SameStore w (transaction (write_start_instance_rows p t s at org_id) w).1
unfolding write_start_instance_rows audit_log
start_rows_err p t s at org_id w x h = ground arith

pub get_instance-Reads : (id : ℕ) → Reads (get_instance id)
unfolding get_instance
get_instance-Reads id w = ground arith

pub record Started (p : StartParams) (d d' : Db) : Type 0 where
  pub template : WorkflowTemplate
  pub step : WorkflowStep
  pub project : Project
  pub at : ℕ
  pub id : ℕ
  pub startable : Startable p d template step project
  pub id_free : find (λ i. i.id == id) d.workflow.instances ≡ none
  pub db_after : d' ≡ started_db p template step at project.org_id id d

-- A start, whether it returns or throws, leaves the database as it was, or the request was valid and
-- the database has one instance more, at the template's first step, with its first action and its
-- audit row.
pub start_instance-Started :
    (p : StartParams) (w : World)
    → ((start_instance p w).1.db ≡ w.db) ⊎ Started p w.db (start_instance p w).1.db
unfolding start_instance
start_instance-Started p w = elim (Outcome-cases (validate_start_instance p w).0) [
  | inl ((t, s, q), c) ↦
      let w' = (validate_start_instance p w).1 in
      let at = w'.env.clock w'.tick in
      elim (Outcome-cases (transaction (write_start_instance_rows p t s at q.org_id) w').0) [
        | inl (id, e) ↦ inr (record {
          template = t;
          step = s;
          project = q;
          at = at;
          id = id;
          startable = validate-Startable p w t s q c;
          id_free = ground (arith, start_rows_ok p t s at q.org_id w' id e, validate-Reads p w);
          db_after =
              let v = (transaction (write_start_instance_rows p t s at q.org_id) w').1 in
              let v' : World = record v { emitted = v.emitted ++ (started_event id p t s ∷ []) } in
              ground (
                arith,
                c,
                e,
                start_rows_ok p t s at q.org_id w' id e,
                validate-Reads p w,
                get_instance-Reads id v',
              );
        })
        | inr (x, e) ↦
            inl (ground (arith, c, e, start_rows_err p t s at q.org_id w' x e, validate-Reads p w))
      ]
  | inr (x, c) ↦ inl (ground (arith, validate-Reads p w))
]

newest-In : (ts : List WorkflowTemplate) (t : WorkflowTemplate) → newest ts ≡ some t → In t ts
unfolding newest
newest-In [] t h = cc
newest-In (x ∷ xs) t h = elim (Option-cases (newest xs)) [
  | inl n ↦ inl (ground arith)
  | inr (u, e) ↦ elim (Bool-cases (ltb x.version u.version)) [
    | inl y ↦ inr (newest-In xs t (ground arith))
    | inr n ↦ inl (ground arith)
  ]
]

pub find_active_by_code-In :
    (code : ℕ) (d : Db) (t : WorkflowTemplate)
    → find_active_by_code code d ≡ some t
    → In t d.workflow.templates
unfolding find_active_by_code
find_active_by_code-In code d t h =
    (select-In (λ t. if t.code == code then t.is_active else false) d.workflow.templates t
      (newest-In (select (λ t. if t.code == code then t.is_active else false) d.workflow.templates)
        t h)).0
