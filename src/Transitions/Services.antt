-- ===== src/Transitions/Services.antt =====
-- packages/core/src/procurement/{purchase-order,supplier-invoice,expense,credit-note,vendor-contract}/
-- service.ts: the transitions, with what follows the write. What an absorption returns is only logged, but for the
-- approval of a purchase order.
use fun_makers_system.Base.{ℕ, Bool, true, false, none, some}
use fun_makers_system.Data.Budget.{
  ReasonCode, no_category, no_budget, no_budget_category, no_budget_line,
}
use fun_makers_system.Data.Errors.{approval_blocked}
use fun_makers_system.Data.Records.{RecordType, RecordStatus, RecordRow}
use fun_makers_system.Effects.{Action, ◌>>=◌, ◌>>◌, pure, throw, command}
use fun_makers_system.Posting.Registry.{Registry}
use fun_makers_system.Budget.Absorption.{
  AbsorptionResult, absorbed, not_absorbed, absorb_po_commitment_handler,
  absorb_credit_note_handler, reverse_po_commitment_handler,
}
use fun_makers_system.Workflow.Resolution.{TemplateCodes}
use fun_makers_system.Convergence.{
  set_status, post_record, procurement_service, po_committed, po_issued, po_delivered,
  credit_note_applied, vendor_contract_signed,
}
use fun_makers_system.Convergence.Procurement.{absorb_and_post_si, absorb_and_post_expense}
use fun_makers_system.Transitions.{
  TransitionInput, check_transition, write_transition, start_workflow, when_status, has_status,
}
use fun_makers_system.Transitions.Tables.{
  po_machine, si_machine, expense_machine, cn_machine, vendor_contract_machine, po_approved_plus,
}

abbrev pub is_blocking : ReasonCode → Bool
is_blocking no_category = true
is_blocking no_budget = true
is_blocking no_budget_category = true
is_blocking no_budget_line = true
is_blocking _ = false

-- The reasons that take the status back.
unfoldable pub block_if : Bool → RecordRow → Action (Unit {0})
block_if false r = pure tt
block_if true r = do
  command (set_status RecordType.purchase_order r.id r.status)
  throw approval_blocked

unfoldable pub block_unless_absorbed : RecordRow → AbsorptionResult → Action (Unit {0})
block_unless_absorbed r (absorbed line_id amount) = pure tt
block_unless_absorbed r (not_absorbed id reason) = block_if (is_blocking reason) r

unfoldable pub po_approval : Registry → RecordRow → ℕ → Action (Unit {0})
po_approval reg r actor = do
  result ← absorb_po_commitment_handler r.project_id r.id actor
  block_unless_absorbed r result
  post_record reg po_committed procurement_service r actor

unfoldable pub release_if : Bool → RecordRow → ℕ → Action (Unit {0})
release_if false r actor = pure tt
release_if true r actor = do result ← reverse_po_commitment_handler r.project_id r.id actor; pure tt

-- What follows the write of a purchase order's status.
unfoldable pub after_po :
    Registry → TemplateCodes → RecordRow → RecordStatus → ℕ → Action (Unit {0})
after_po reg codes r target actor = do
  when_status target RecordStatus.submitted (start_workflow codes r actor (some r.amount))
  when_status target RecordStatus.approved (po_approval reg r actor)
  when_status target RecordStatus.cancelled
      (release_if (has_status po_approved_plus r.status) r actor)
  when_status target RecordStatus.issued (post_record reg po_issued procurement_service r actor)
  when_status target RecordStatus.delivered
      (post_record reg po_delivered procurement_service r actor)

-- `transitionPurchaseOrder`
unfoldable pub transition_purchase_order :
    Registry → TemplateCodes → TransitionInput → Action (Unit {0})
transition_purchase_order reg codes p = do
  (r, target) ← check_transition po_machine p
  write_transition RecordType.purchase_order p r target
  after_po reg codes r target p.actor_user_id

unfoldable pub after_si :
    Registry → TemplateCodes → RecordRow → RecordStatus → ℕ → Action (Unit {0})
after_si reg codes r target actor = do
  when_status target RecordStatus.under_review (start_workflow codes r actor none)
  when_status target RecordStatus.approved (absorb_and_post_si reg actor r)

-- `transitionSupplierInvoice`
unfoldable pub transition_supplier_invoice :
    Registry → TemplateCodes → TransitionInput → Action (Unit {0})
transition_supplier_invoice reg codes p = do
  (r, target) ← check_transition si_machine p
  write_transition RecordType.supplier_invoice p r target
  after_si reg codes r target p.actor_user_id

unfoldable pub after_expense :
    Registry → TemplateCodes → RecordRow → RecordStatus → ℕ → Action (Unit {0})
after_expense reg codes r target actor = do
  when_status target RecordStatus.submitted (start_workflow codes r actor (some r.amount))
  when_status target RecordStatus.approved (absorb_and_post_expense reg actor r)

-- `transitionExpense`
unfoldable pub transition_expense : Registry → TemplateCodes → TransitionInput → Action (Unit {0})
transition_expense reg codes p = do
  (r, target) ← check_transition expense_machine p
  write_transition RecordType.expense p r target
  after_expense reg codes r target p.actor_user_id

unfoldable pub apply_credit_note : Registry → RecordRow → ℕ → Action (Unit {0})
apply_credit_note reg r actor = do
  result ← absorb_credit_note_handler r.project_id r.id actor
  post_record reg credit_note_applied procurement_service r actor

unfoldable pub after_cn : Registry → RecordRow → RecordStatus → ℕ → Action (Unit {0})
after_cn reg r target actor =
    when_status target RecordStatus.applied (apply_credit_note reg r actor)

-- `transitionCreditNote`
unfoldable pub transition_credit_note : Registry → TransitionInput → Action (Unit {0})
transition_credit_note reg p = do
  (r, target) ← check_transition cn_machine p
  write_transition RecordType.credit_note p r target
  after_cn reg r target p.actor_user_id

unfoldable pub after_vendor_contract : Registry → RecordRow → RecordStatus → ℕ → Action (Unit {0})
after_vendor_contract reg r target actor =
    when_status target RecordStatus.signed
      (post_record reg vendor_contract_signed procurement_service r actor)

-- `transitionVendorContract`, called with the project. The date of the signature is left out.
unfoldable pub transition_vendor_contract : Registry → TransitionInput → Action (Unit {0})
transition_vendor_contract reg p = do
  (r, target) ← check_transition vendor_contract_machine p
  write_transition RecordType.vendor_contract p r target
  after_vendor_contract reg r target p.actor_user_id
