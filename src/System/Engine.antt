-- ===== src/System/Engine.antt =====
-- What a request to the engine leaves of the records and of the approved instances, and the events that
-- it emits.
use fun_makers_system.Base.{
  ℕ, ◌≡◌, ◌≢◌, refl, inl, inr, true, Option, none, some, List, [], arith, All, ◌==◌, ==_iff, find,
  find-update_where_self, update_where, Bool-cases,
}
use fun_makers_system.Base.Text.{Text}
use fun_makers_system.Data.Audit.{AuditEntry, workflow_step_approved}
use fun_makers_system.Data.Workflow.{
  WorkflowStep, WorkflowAction, WorkflowInstance, WorkflowEvent, ActionKind, approved, no_metadata,
}
use fun_makers_system.Data.Records.{RecordType}
use fun_makers_system.Effects.{World, Db}
use fun_makers_system.Workflow.Order.{Loaded, find_loaded, find_next_step}
use fun_makers_system.Workflow.Steps.{is_live, approve_instance, action_row, audit_entry}
use fun_makers_system.Workflow.Steps.Effect.{written, Approval, approval_events}
use fun_makers_system.Workflow.Lifecycle.Template.{find_loaded-LoadedFrom, find_loaded-other}
use fun_makers_system.Convergence.Dispatch.{wired_type}
use fun_makers_system.System.{Backing}
use fun_makers_system.System.Backed.{wired_type_code}
use fun_makers_system.System.Dispatch.{Vouched}

-- Approved instances stay as they are.
abbrev pub Kept : Db → Db → Type 0
Kept d d' =
    (k : ℕ) (l : Loaded)
    → find_loaded k d ≡ some l
    → l.instance_row.status ≡ approved
    → find_loaded k d' ≡ some l

pub record Step (d d' : Db) (es : List WorkflowEvent) : Type 0 where
  pub same_records : d'.records ≡ d.records
  pub kept : Kept d d'
  pub vouched : All (Vouched d') es

pub same-Step : (d d' : Db) → d' ≡ d → Step d d' []
same-Step d d' e = record { same_records = rw e; kept = λ k l h s. rw e h; vouched = tt }

-- Loading after the row has been changed.
load_changed :
    (id : ℕ) (d d' : Db) (f : WorkflowInstance → WorkflowInstance) (l : Loaded)
    → ((i : WorkflowInstance) → (f i).id ≡ i.id)
    → ((i : WorkflowInstance) → (f i).template_id ≡ i.template_id)
    → d'.workflow.templates ≡ d.workflow.templates
    → d'.workflow.instances ≡ update_where (λ i. i.id == id) f d.workflow.instances
    → find_loaded id d ≡ some l
    → find_loaded id d' ≡ some (record l { instance_row = f l.instance_row })
unfolding find_loaded
load_changed id d d' f l keep_id keep_template et ei h =
    let v = find_loaded-LoadedFrom id d l h in
    let row : find (λ i. i.id == id) d'.workflow.instances ≡ some (f l.instance_row) = ground (
      arith,
      v.row_found,
      ei,
      find-update_where_self (λ i. i.id) id f keep_id d.workflow.instances,
    ) in
    ground (arith, row, et, keep_template l.instance_row, v.template_found, v.code_eq, v.steps_eq)

-- The writes of an action on an instance that was live.
pub written-Kept :
    (a : WorkflowAction) (f : WorkflowInstance → WorkflowInstance) (e : AuditEntry) (d : Db)
    (l : Loaded)
    → ((i : WorkflowInstance) → (f i).id ≡ i.id)
    → find_loaded a.instance_id d ≡ some l
    → l.instance_row.status ≢ approved
    → Kept d (written a f e d)
written-Kept a f e d l keep_id found live k l' h done = elim (Bool-cases (k == a.instance_id)) [
  | inl y ↦
      let q : k ≡ a.instance_id = (==_iff k a.instance_id).0 y in
      let same : l' ≡ l = ground (arith, rw q at h, found) in absurd (live (rw same at done))
  | inr n ↦
      let ne : k ≢ a.instance_id = λ q. cc (n, (==_iff k a.instance_id).1 q) in
      rw (find_loaded-other a.instance_id k d (written a f e d) f ne keep_id refl refl) h
]

pub live-open :
    (l : Loaded) → is_live l.instance_row.status ≡ true → l.instance_row.status ≢ approved
live-open l h e = cc (rw e at h)

completed :
    (id at : ℕ) (l : Loaded) (d' : Db) (kind : RecordType)
    → wired_type l.instance_row.record_type ≡ some kind
    → find_loaded id d' ≡ some (record l { instance_row = approve_instance none at l.instance_row })
    → Backing kind l.instance_row.record_id d'
completed id at l d' kind y h = record {
  instance_id = id;
  loaded = record l { instance_row = approve_instance none at l.instance_row };
  found = h;
  of_type = wired_type_code l.instance_row.record_type kind y;
  of_record = refl;
  completed = refl;
}

-- An approval that completes the instance is what its event vouches for.
approval-Vouched :
    (id actor at : ℕ) (comment : Option Text) (l : Loaded) (s : WorkflowStep) (d' : Db)
    (next : Option WorkflowStep)
    → find_loaded id d' ≡ some (record l { instance_row = approve_instance next at l.instance_row })
    → All (Vouched d') (approval_events l s actor comment next)
approval-Vouched id actor at comment l s d' (some n) h = (λ e. absurd (ground arith), tt)
approval-Vouched id actor at comment l s d' none h =
    (λ e. absurd (ground arith), (λ e kind y. completed id at l d' kind y h, tt))

-- Each action that succeeds.
pub approve-Step :
    (id step_id actor : ℕ) (comment : Option Text) (w w' : World)
    → Approval id step_id actor comment w w'
    → w.emitted ≡ []
    → Step w.db w'.db w'.emitted
approve-Step id step_id actor comment w w' v n =
    let l = v.loaded in
    let next = find_next_step l.steps v.current.order_index in
    let a = action_row id step_id actor ActionKind.approved comment v.at no_metadata in
    let f : WorkflowInstance → WorkflowInstance = approve_instance next v.at in
    let e = audit_entry workflow_step_approved id l.instance_row.project_id actor comment in
    let events : w'.emitted ≡ approval_events l v.current actor comment next =
      ground (arith, v.emitted_after, n) in
    let after =
      load_changed id w.db (written a f e w.db) f l (λ i. refl) (λ i. refl) refl refl
        v.checked.loaded in
    rw (v.db_after, events)
      (record {
        same_records = refl;
        kept =
            written-Kept a f e w.db l (λ i. refl) v.checked.loaded
              (live-open l v.checked.status_allowed);
        vouched =
            approval-Vouched id actor v.at comment l v.current (written a f e w.db) next after;
      })
