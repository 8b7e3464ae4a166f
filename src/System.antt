-- ===== src/System.antt =====
-- The workflow engine, the convergence of records and the manual transitions together: a request to the
-- engine is followed by the delivery of the events that it emitted, and the services move records
-- between the statuses that are theirs.
pub mod Backed
pub mod Handlers
pub mod Drawings
pub mod Reactions
pub mod Dispatch
pub mod Engine
pub mod Starts
pub mod Requests
pub mod Invariant
pub mod Checked
pub mod Writes
pub mod Services
pub mod Refusals
pub mod ByHand
pub mod Rfq
pub mod Delivery
pub mod Runs
use fun_makers_system.Base.{List, [], ◌∷◌, ℕ, Bool, true, false, some, ◌≡◌}
use fun_makers_system.Data.Records.{
  RecordType, RecordStatus, RecordRow, rfq, purchase_order, supplier_invoice, expense, credit_note,
  vendor_contract, framework_agreement, cost_proposal, tax_invoice, drawing_revision, type_code,
  same_status, approved_internal, for_construction,
}
use fun_makers_system.Data.Workflow.{approved}
use fun_makers_system.Effects.{Db}
use fun_makers_system.Workflow.Order.{Loaded, find_loaded}
use fun_makers_system.Transitions.{has_status}
use fun_makers_system.Transitions.Tables.{po_approved_plus, si_approved_plus, expense_approved_plus}

-- What follows the approval of a request for quotation, but for its cancellation.
abbrev pub rfq_approved_plus : List RecordStatus
rfq_approved_plus =
    RecordStatus.approved_internal ∷ RecordStatus.issued ∷ RecordStatus.responses_received
    ∷ RecordStatus.evaluation ∷ RecordStatus.awarded ∷ RecordStatus.closed ∷ []

-- The statuses that a record has only after its approval. There are none for the types that may be
-- approved by hand: their services refuse no action as the workflow engine's.
abbrev pub is_past_approval : RecordType → RecordStatus → Bool
is_past_approval purchase_order s = has_status po_approved_plus s
is_past_approval supplier_invoice s = has_status si_approved_plus s
is_past_approval expense s = has_status expense_approved_plus s
is_past_approval rfq s = has_status rfq_approved_plus s
is_past_approval credit_note s = false
is_past_approval vendor_contract s = false
is_past_approval framework_agreement s = false
is_past_approval cost_proposal s = false
is_past_approval tax_invoice s = false
is_past_approval drawing_revision s = same_status s for_construction
is_past_approval _ s = same_status s approved_internal

-- An approved instance for the record.
pub record Backing (kind : RecordType) (id : ℕ) (d : Db) : Type 0 where
  pub instance_id : ℕ
  pub loaded : Loaded
  pub found : find_loaded instance_id d ≡ some loaded
  pub of_type : loaded.instance_row.record_type ≡ type_code kind
  pub of_record : loaded.instance_row.record_id ≡ id
  pub completed : loaded.instance_row.status ≡ approved

abbrev pub BackedRow : Db → RecordRow → Type 0
BackedRow d r = is_past_approval r.kind r.status ≡ true → Backing r.kind r.id d
