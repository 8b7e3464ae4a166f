-- ===== src/Convergence/Dispatch.antt =====
-- packages/core/src/workflow/convergence-handlers.ts: which handler an event goes to, and the
-- registration on the bus. The statuses that the record types take are listed here too.
use fun_makers_system.Base.{ℕ, List, [], none, some, Option, ◌==◌, if◌then◌else◌}
use fun_makers_system.Data.Records.{
  RecordType, ipa, ipc, rfq, variation, correspondence, purchase_order, supplier_invoice, expense,
  cost_proposal, tax_invoice, vendor_contract, framework_agreement, credit_note, drawing_revision,
}
use fun_makers_system.Data.Workflow.{workflow_approved, workflow_returned, workflow_rejected}
use fun_makers_system.Effects.{pure}
use fun_makers_system.Posting.Registry.{Registry}
use fun_makers_system.Workflow.Bus.{Handler, Subscription, on}
use fun_makers_system.Convergence.Commercial.{
  handle_ipa_approved, handle_ipa_returned, handle_ipa_rejected, handle_ipc_approved,
  handle_ipc_returned, handle_ipc_rejected, handle_variation_approved, handle_variation_returned,
  handle_variation_rejected, handle_correspondence_approved, handle_correspondence_returned,
  handle_correspondence_rejected, handle_cost_proposal_approved, handle_cost_proposal_returned,
  handle_cost_proposal_rejected, handle_tax_invoice_approved, handle_tax_invoice_returned,
  handle_tax_invoice_rejected,
}
use fun_makers_system.Convergence.Procurement.{
  handle_rfq_approved, handle_rfq_returned, handle_rfq_rejected, handle_po_approved,
  handle_po_returned, handle_po_rejected, handle_supplier_invoice_approved,
  handle_supplier_invoice_returned, handle_supplier_invoice_rejected, handle_expense_approved,
  handle_expense_returned, handle_expense_rejected, handle_vendor_contract_approved,
  handle_vendor_contract_returned, handle_vendor_contract_rejected,
  handle_framework_agreement_approved, handle_framework_agreement_returned,
  handle_framework_agreement_rejected, handle_credit_note_approved, handle_credit_note_rejected,
}
use fun_makers_system.Convergence.Drawings.{handle_drawing_revision_approved}

-- `CONVERGENCE_RECORD_TYPES`: the type with the code of an event; a type that is not wired has none.
unfoldable pub wired_type : ℕ → Option RecordType
wired_type code =
    if code == 1
    then some ipa
    else if code == 2
    then some ipc
    else if code == 3
    then some rfq
    else if code == 4
    then some variation
    else if code == 5
    then some correspondence
    else if code == 6
    then some purchase_order
    else if code == 7
    then some supplier_invoice
    else if code == 8
    then some expense
    else if code == 9
    then some cost_proposal
    else if code == 10
    then some tax_invoice
    else if code == 11
    then some vendor_contract
    else if code == 12
    then some framework_agreement
    else if code == 13
    then some credit_note
    else if code == 14
    then some drawing_revision
    else none

abbrev pub ignore : Handler
ignore e = pure tt

abbrev pub approved_handler : Registry → RecordType → Handler
approved_handler reg ipa = handle_ipa_approved reg
approved_handler reg ipc = handle_ipc_approved
approved_handler reg rfq = handle_rfq_approved
approved_handler reg variation = handle_variation_approved reg
approved_handler reg correspondence = handle_correspondence_approved
approved_handler reg purchase_order = handle_po_approved reg
approved_handler reg supplier_invoice = handle_supplier_invoice_approved reg
approved_handler reg expense = handle_expense_approved reg
approved_handler reg cost_proposal = handle_cost_proposal_approved
approved_handler reg tax_invoice = handle_tax_invoice_approved
approved_handler reg vendor_contract = handle_vendor_contract_approved
approved_handler reg framework_agreement = handle_framework_agreement_approved
approved_handler reg credit_note = handle_credit_note_approved
approved_handler reg drawing_revision = handle_drawing_revision_approved

-- A credit note and a drawing revision keep their status on a return.
abbrev pub returned_handler : RecordType → Handler
returned_handler ipa = handle_ipa_returned
returned_handler ipc = handle_ipc_returned
returned_handler rfq = handle_rfq_returned
returned_handler variation = handle_variation_returned
returned_handler correspondence = handle_correspondence_returned
returned_handler purchase_order = handle_po_returned
returned_handler supplier_invoice = handle_supplier_invoice_returned
returned_handler expense = handle_expense_returned
returned_handler cost_proposal = handle_cost_proposal_returned
returned_handler tax_invoice = handle_tax_invoice_returned
returned_handler vendor_contract = handle_vendor_contract_returned
returned_handler framework_agreement = handle_framework_agreement_returned
returned_handler _ = ignore

abbrev pub rejected_handler : RecordType → Handler
rejected_handler ipa = handle_ipa_rejected
rejected_handler ipc = handle_ipc_rejected
rejected_handler rfq = handle_rfq_rejected
rejected_handler variation = handle_variation_rejected
rejected_handler correspondence = handle_correspondence_rejected
rejected_handler purchase_order = handle_po_rejected
rejected_handler supplier_invoice = handle_supplier_invoice_rejected
rejected_handler expense = handle_expense_rejected
rejected_handler cost_proposal = handle_cost_proposal_rejected
rejected_handler tax_invoice = handle_tax_invoice_rejected
rejected_handler vendor_contract = handle_vendor_contract_rejected
rejected_handler framework_agreement = handle_framework_agreement_rejected
rejected_handler credit_note = handle_credit_note_rejected
rejected_handler drawing_revision = ignore

abbrev pub if_wired : Option RecordType → (RecordType → Handler) → Handler
if_wired none handler e = pure tt
if_wired (some kind) handler e = handler kind e

unfoldable pub on_workflow_approved : Registry → Handler
on_workflow_approved reg e = if_wired (wired_type e.record_type) (approved_handler reg) e

unfoldable pub on_workflow_returned : Handler
on_workflow_returned e = if_wired (wired_type e.record_type) returned_handler e

unfoldable pub on_workflow_rejected : Handler
on_workflow_rejected e = if_wired (wired_type e.record_type) rejected_handler e

-- `registerConvergenceHandlers`, on a bus with nothing else.
unfoldable pub convergence_bus : Registry → List Subscription
convergence_bus reg =
    on workflow_rejected on_workflow_rejected (
      on workflow_returned on_workflow_returned
        (on workflow_approved (on_workflow_approved reg) []))
