-- ===== src/Transitions.antt =====
-- The manual status transitions of the procurement records (packages/core/src/procurement). The six
-- services have the same checks in the same order, with tables of their own; this module has the
-- checks, the write, and the start of a workflow. The permission to write statuses that the services
-- run under is left out.
pub mod Tables
pub mod Services
pub mod Rfq
use fun_makers_system.Base.{
  ℕ, Bool, true, false, not, Option, none, some, List, [], ◌∷◌, ◌==◌, if◌then◌else◌,
}
use fun_makers_system.Base.Int.{ℤ}
use fun_makers_system.Base.Text.{Text}
use fun_makers_system.Data.Audit.{AuditEntry, user, transition}
use fun_makers_system.Data.Errors.{
  Error, record_not_found, unknown_action, scope_mismatch, terminal_status, invalid_transition,
  workflow_managed,
}
use fun_makers_system.Data.Records.{
  RecordType, RecordStatus, RecordAction, RecordRow, manual, type_code, same_status, same_action,
}
use fun_makers_system.Effects.{
  Action, ◌>>=◌, ◌>>◌, pure, throw, throw_if, or_throw, query, command, try_catch,
}
use fun_makers_system.Audit.{audit_log}
use fun_makers_system.Convergence.{find_row, set_status}
use fun_makers_system.Workflow.Instances.{StartParams, start_instance}
use fun_makers_system.Workflow.Resolution.{TemplateCodes, Resolution, resolve_template}

-- The tables of a service: the status that an action leads to, the statuses that may follow a status,
-- the terminal ones, and the actions that only the workflow engine performs.
pub record Machine : Type 0 where
  pub kind : RecordType
  pub target : RecordAction → Option RecordStatus
  pub allowed : RecordStatus → List RecordStatus
  pub terminal : List RecordStatus
  pub managed : List RecordAction

abbrev pub has_status : List RecordStatus → RecordStatus → Bool
has_status [] s = false
has_status (t ∷ ts) s = if same_status t s then true else has_status ts s

abbrev pub has_action : List RecordAction → RecordAction → Bool
has_action [] a = false
has_action (b ∷ bs) a = if same_action b a then true else has_action bs a

pub record TransitionInput : Type 0 where
  pub project_id : ℕ
  pub id : ℕ
  pub action : RecordAction
  pub comment : Option Text
  pub actor_user_id : ℕ

-- `assertProjectScope` (packages/core/src/scope-binding.ts)
unfoldable pub assert_project_scope : RecordRow → ℕ → Action (Unit {0})
assert_project_scope r project_id =
    throw_if (not (r.project_id == project_id)) (scope_mismatch r.kind r.id)

-- The checks on the row.
unfoldable pub check_row :
    Machine → TransitionInput → RecordStatus → RecordRow → Action (RecordRow × RecordStatus)
check_row m p target r = do
  assert_project_scope r p.project_id
  throw_if (has_status m.terminal r.status) (terminal_status m.kind r.status)
  throw_if (not (has_status (m.allowed r.status) target))
      (invalid_transition m.kind r.status target)
  throw_if (has_action m.managed p.action) (workflow_managed m.kind p.action)
  pure (r, target)

-- The checks that come before any write: what is found is the row, and the status it is to have.
unfoldable pub check_transition : Machine → TransitionInput → Action (RecordRow × RecordStatus)
check_transition m p = do
  target ← or_throw (m.target p.action) (unknown_action m.kind p.action)
  found ← query (λ d. find_row m.kind p.id d.records.rows)
  r ← or_throw found record_not_found
  check_row m p target r

abbrev pub transition_entry : RecordType → TransitionInput → RecordRow → AuditEntry
transition_entry kind p r = record {
  actor_user_id = some p.actor_user_id;
  actor_source = user;
  action = transition kind (manual p.action);
  resource_id = p.id;
  project_id = some r.project_id;
  org_id = none;
  reason = p.comment;
}

-- The update and the audit row: two calls, in no transaction.
unfoldable pub write_transition :
    RecordType → TransitionInput → RecordRow → RecordStatus → Action (Unit {0})
write_transition kind p r target = do
  command (set_status kind p.id target)
  audit_log (transition_entry kind p r)
  pure tt

abbrev pub start_params : RecordRow → ℕ → Resolution → StartParams
start_params r actor found = record {
  template_code = found.code;
  record_type = type_code r.kind;
  record_id = r.id;
  project_id = r.project_id;
  started_by = actor;
  resolution_source = some found.source;
}

unfoldable pub start_resolved : RecordRow → ℕ → Option Resolution → Action (Unit {0})
start_resolved r actor none = pure tt
start_resolved r actor (some found) = do l ← start_instance (start_params r actor found); pure tt

-- The start of the workflow. Whatever it throws is logged: the status and the audit row stay.
unfoldable pub start_workflow : TemplateCodes → RecordRow → ℕ → Option ℤ → Action (Unit {0})
start_workflow codes r actor amount =
    try_catch
      (resolve_template codes (type_code r.kind) r.project_id amount >>= start_resolved r actor)
      (λ x. pure tt)

abbrev pub when : Bool → Action (Unit {0}) → Action (Unit {0})
when true m = m
when false m = pure tt

-- `if (newStatus === status)`
abbrev pub when_status : RecordStatus → RecordStatus → Action (Unit {0}) → Action (Unit {0})
when_status target status m = when (same_status target status) m
