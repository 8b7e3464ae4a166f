-- ===== src/Convergence/Procurement.antt =====
-- packages/core/src/workflow/convergence-handlers.ts: the handlers of the procurement records. What an
-- absorption returns is only logged.
use fun_makers_system.Base.{ℕ}
use fun_makers_system.Data.Records.{
  rfq, RecordRow, vendor_contract, framework_agreement, RecordType, RecordStatus, approved_internal,
}
use fun_makers_system.Effects.{Action, ◌>>=◌}
use fun_makers_system.Posting.Registry.{Registry}
use fun_makers_system.Budget.Absorption.{
  absorb_po_commitment_handler, absorb_supplier_invoice_handler, absorb_expense_handler,
}
use fun_makers_system.Workflow.Bus.{Handler}
use fun_makers_system.Convergence.{
  converge_approved, converge_returned, converge_rejected, nothing_more, post_record,
  procurement_service, po_committed, supplier_invoice_approved, expense_approved,
}

unfoldable pub handle_rfq_approved : Handler
handle_rfq_approved e = converge_approved rfq approved_internal nothing_more e

unfoldable pub handle_rfq_returned : Handler
handle_rfq_returned e = converge_returned rfq RecordStatus.returned e

unfoldable pub handle_rfq_rejected : Handler
handle_rfq_rejected e = converge_rejected rfq RecordStatus.rejected e

unfoldable pub absorb_and_post_po : Registry → ℕ → RecordRow → Action (Unit {0})
absorb_and_post_po reg actor r = do
  absorption ← absorb_po_commitment_handler r.project_id r.id actor
  post_record reg po_committed procurement_service r actor

unfoldable pub handle_po_approved : Registry → Handler
handle_po_approved reg e =
    converge_approved RecordType.purchase_order RecordStatus.approved
      (absorb_and_post_po reg e.actor_user_id) e

unfoldable pub handle_po_returned : Handler
handle_po_returned e = converge_returned RecordType.purchase_order RecordStatus.returned e

unfoldable pub handle_po_rejected : Handler
handle_po_rejected e = converge_rejected RecordType.purchase_order RecordStatus.rejected e

unfoldable pub absorb_and_post_si : Registry → ℕ → RecordRow → Action (Unit {0})
absorb_and_post_si reg actor r = do
  absorption ← absorb_supplier_invoice_handler r.project_id r.id actor
  post_record reg supplier_invoice_approved procurement_service r actor

unfoldable pub handle_supplier_invoice_approved : Registry → Handler
handle_supplier_invoice_approved reg e =
    converge_approved RecordType.supplier_invoice RecordStatus.approved
      (absorb_and_post_si reg e.actor_user_id) e

-- A returned invoice is disputed.
unfoldable pub handle_supplier_invoice_returned : Handler
handle_supplier_invoice_returned e =
    converge_returned RecordType.supplier_invoice RecordStatus.disputed e

unfoldable pub handle_supplier_invoice_rejected : Handler
handle_supplier_invoice_rejected e =
    converge_rejected RecordType.supplier_invoice RecordStatus.rejected e

unfoldable pub absorb_and_post_expense : Registry → ℕ → RecordRow → Action (Unit {0})
absorb_and_post_expense reg actor r = do
  absorption ← absorb_expense_handler r.project_id r.id actor
  post_record reg expense_approved procurement_service r actor

unfoldable pub handle_expense_approved : Registry → Handler
handle_expense_approved reg e =
    converge_approved RecordType.expense RecordStatus.approved
      (absorb_and_post_expense reg e.actor_user_id) e

unfoldable pub handle_expense_returned : Handler
handle_expense_returned e = converge_returned RecordType.expense RecordStatus.returned e

unfoldable pub handle_expense_rejected : Handler
handle_expense_rejected e = converge_rejected RecordType.expense RecordStatus.rejected e

unfoldable pub handle_vendor_contract_approved : Handler
handle_vendor_contract_approved e =
    converge_approved vendor_contract approved_internal nothing_more e

unfoldable pub handle_vendor_contract_returned : Handler
handle_vendor_contract_returned e = converge_returned vendor_contract RecordStatus.returned e

unfoldable pub handle_vendor_contract_rejected : Handler
handle_vendor_contract_rejected e = converge_rejected vendor_contract RecordStatus.rejected e

unfoldable pub handle_framework_agreement_approved : Handler
handle_framework_agreement_approved e =
    converge_approved framework_agreement approved_internal nothing_more e

unfoldable pub handle_framework_agreement_returned : Handler
handle_framework_agreement_returned e =
    converge_returned framework_agreement RecordStatus.returned e

unfoldable pub handle_framework_agreement_rejected : Handler
handle_framework_agreement_rejected e =
    converge_rejected framework_agreement RecordStatus.rejected e

-- A credit note is verified or cancelled; there is no handler for its return.
unfoldable pub handle_credit_note_approved : Handler
handle_credit_note_approved e =
    converge_approved RecordType.credit_note RecordStatus.verified nothing_more e

unfoldable pub handle_credit_note_rejected : Handler
handle_credit_note_rejected e = converge_rejected RecordType.credit_note RecordStatus.cancelled e
