-- ===== src/Convergence.antt =====
-- packages/core/src/workflow/convergence-handlers.ts: when a workflow ends or is returned, the status of
-- its record follows. This module has what the handlers share: the lookup, the guard for a record that
-- already has the status, the write, and the audit row; then what is left to do, such as an absorption
-- and a posting. The formatted `reason` of the audit rows is left out, and so is the permission to
-- write statuses that the handlers run under.
pub mod Commercial
pub mod Procurement
pub mod Drawings
pub mod Dispatch
pub mod Apart
pub mod Redelivery
pub mod Lost
use fun_makers_system.Base.{
  ℕ, Bool, true, false, Option, none, some, List, [], ◌∷◌, ◌==◌, if◌then◌else◌, find, update_first,
}
use fun_makers_system.Data.Audit.{AuditEntry, system, transition}
use fun_makers_system.Data.Posting.{of_record}
use fun_makers_system.Data.Records.{
  RecordType, RecordStatus, RecordRow, Trigger, workflow_approved, workflow_returned,
  workflow_rejected, type_code, same_status,
}
use fun_makers_system.Data.Workflow.{WorkflowEvent}
use fun_makers_system.Effects.{Db, Action, ◌>>=◌, ◌>>◌, pure, query, command}
use fun_makers_system.Audit.{audit_log}
use fun_makers_system.Posting.Registry.{Registry}
use fun_makers_system.Posting.Service.{PostInput, post}
use fun_makers_system.Workflow.Order.{Loaded, find_loaded}

abbrev pub is_row : RecordType → ℕ → RecordRow → Bool
is_row kind id r = if type_code r.kind == type_code kind then r.id == id else false

abbrev pub find_row : RecordType → ℕ → List RecordRow → Option RecordRow
find_row kind id = find (is_row kind id)

abbrev pub with_rows : Db → List RecordRow → Db
with_rows d rs = record d { records = record (d.records) { rows = rs } }

abbrev pub to_status : RecordStatus → RecordRow → RecordRow
to_status s r = record r { status = s }

-- The update of a status column.
abbrev pub set_status : RecordType → ℕ → RecordStatus → Db → Option Db
set_status kind id s d = elim (find_row kind id d.records.rows) [
  | none ↦ none
  | some _ ↦ some (with_rows d (update_first (is_row kind id) (to_status s) d.records.rows))
]

abbrev pub convergence_entry : RecordType → Trigger → WorkflowEvent → AuditEntry
convergence_entry kind t e = record {
  actor_user_id = some e.actor_user_id;
  actor_source = system;
  action = transition kind t;
  resource_id = e.record_id;
  project_id = some e.project_id;
  org_id = none;
  reason = none;
}

-- `loadInstanceContext`, whose result only the audit row names.
abbrev pub load_context : WorkflowEvent → Action (Unit {0})
load_context e = query (λ d. find_loaded e.instance_id d) >>= λ l. pure tt

abbrev pub no_context : WorkflowEvent → Action (Unit {0})
no_context e = pure tt

abbrev pub nothing_more : RecordRow → Action (Unit {0})
nothing_more r = pure tt

-- The write and the audit row: two calls, in no transaction.
unfoldable pub write_status :
    RecordType → RecordStatus → Trigger → WorkflowEvent → Action (Unit {0})
write_status kind target t e = do
  command (set_status kind e.record_id target)
  audit_log (convergence_entry kind t e)
  pure tt

-- `true` is a record that has the status already.
unfoldable pub converge_unless :
    Bool
    → RecordType
    → RecordStatus
    → Trigger
    → Action (Unit {0})
    → Action (Unit {0})
    → WorkflowEvent
    → Action (Unit {0})
converge_unless true kind target t context rest e = pure tt
converge_unless false kind target t context rest e = do context; write_status kind target t e; rest

unfoldable pub converge_found :
    Option RecordRow
    → RecordType
    → RecordStatus
    → Trigger
    → (WorkflowEvent → Action (Unit {0}))
    → (RecordRow → Action (Unit {0}))
    → WorkflowEvent
    → Action (Unit {0})
converge_found none kind target t context rest e = pure tt
converge_found (some r) kind target t context rest e =
    converge_unless (same_status r.status target) kind target t (context e) (rest r) e

-- The shape of the handlers.
unfoldable pub converge :
    RecordType
    → RecordStatus
    → Trigger
    → (WorkflowEvent → Action (Unit {0}))
    → (RecordRow → Action (Unit {0}))
    → WorkflowEvent
    → Action (Unit {0})
converge kind target t context rest e = do
  found ← query (λ d. find_row kind e.record_id d.records.rows)
  converge_found found kind target t context rest e

-- An approval, with what follows it; a return, which loads the instance; a rejection.
abbrev pub converge_approved :
    RecordType → RecordStatus → (RecordRow → Action (Unit {0})) → WorkflowEvent → Action (Unit {0})
converge_approved kind target rest = converge kind target workflow_approved no_context rest

abbrev pub converge_returned : RecordType → RecordStatus → WorkflowEvent → Action (Unit {0})
converge_returned kind target = converge kind target workflow_returned load_context nothing_more

abbrev pub converge_rejected : RecordType → RecordStatus → WorkflowEvent → Action (Unit {0})
converge_rejected kind target = converge kind target workflow_rejected no_context nothing_more

-- The posting event of a record: its key is that of the event type and the record.
abbrev pub record_post : ℕ → ℕ → RecordRow → ℕ → PostInput
record_post event_type service r actor = record {
  event_type = event_type;
  source_service = service;
  source_record_type = type_code r.kind;
  source_record_id = r.id;
  project_id = r.project_id;
  entity_id = r.entity_id;
  idempotency_key = of_record event_type r.id;
  payload = r.details;
  actor_user_id = some actor;
  origin = none;
  import_batch_id = none;
  posted_at_override = none;
}

unfoldable pub post_record : Registry → ℕ → ℕ → RecordRow → ℕ → Action (Unit {0})
post_record reg event_type service r actor = do
  event ← post reg (record_post event_type service r actor)
  pure tt

-- The names of the services and of the posting events, as numbers.
abbrev pub commercial_service : ℕ
commercial_service = 1

abbrev pub procurement_service : ℕ
procurement_service = 2

abbrev pub ipa_approved : ℕ
ipa_approved = 101

abbrev pub variation_approved_internal : ℕ
variation_approved_internal = 102

abbrev pub po_committed : ℕ
po_committed = 103

abbrev pub supplier_invoice_approved : ℕ
supplier_invoice_approved = 104

abbrev pub expense_approved : ℕ
expense_approved = 105

abbrev pub po_issued : ℕ
po_issued = 106

abbrev pub po_delivered : ℕ
po_delivered = 107

abbrev pub credit_note_applied : ℕ
credit_note_applied = 108

abbrev pub vendor_contract_signed : ℕ
vendor_contract_signed = 109
