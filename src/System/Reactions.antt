-- ===== src/System/Reactions.antt =====
-- Each record type's handlers: an approval needs an approved instance, a return or a rejection
-- nothing.
use fun_makers_system.Base.{◌≡◌, refl, false}
use fun_makers_system.Data.Records.{RecordType, RecordStatus, RecordRow, Trigger, workflow_approved}
use fun_makers_system.Data.Workflow.{WorkflowEvent}
use fun_makers_system.Effects.{Db, Action}
use fun_makers_system.Effects.Keeps.{Keeps}
use fun_makers_system.Posting.Registry.{Registry}
use fun_makers_system.Convergence.{
  load_context, no_context, nothing_more, post_record, commercial_service, ipa_approved,
  variation_approved_internal, converge_approved, converge_returned, converge_rejected,
}
use fun_makers_system.Convergence.Dispatch.{approved_handler, returned_handler, rejected_handler}
use fun_makers_system.Convergence.Commercial.{
  handle_ipa_approved, handle_ipa_returned, handle_ipa_rejected, handle_ipc_approved,
  handle_ipc_returned, handle_ipc_rejected, handle_variation_approved, handle_variation_returned,
  handle_variation_rejected, handle_correspondence_approved, handle_correspondence_returned,
  handle_correspondence_rejected, handle_cost_proposal_approved, handle_cost_proposal_returned,
  handle_cost_proposal_rejected, handle_tax_invoice_approved, handle_tax_invoice_returned,
  handle_tax_invoice_rejected,
}
use fun_makers_system.Convergence.Procurement.{
  absorb_and_post_po, absorb_and_post_si, absorb_and_post_expense, handle_rfq_approved,
  handle_rfq_returned, handle_rfq_rejected, handle_po_approved, handle_po_returned,
  handle_po_rejected, handle_supplier_invoice_approved, handle_supplier_invoice_returned,
  handle_supplier_invoice_rejected, handle_expense_approved, handle_expense_returned,
  handle_expense_rejected, handle_vendor_contract_approved, handle_vendor_contract_returned,
  handle_vendor_contract_rejected, handle_framework_agreement_approved,
  handle_framework_agreement_returned, handle_framework_agreement_rejected,
  handle_credit_note_approved, handle_credit_note_rejected,
}
use fun_makers_system.System.Drawings.{drawing-Held}
use fun_makers_system.System.{is_past_approval, Backing}
use fun_makers_system.System.Backed.{Held}
use fun_makers_system.System.Handlers.{
  converge-Held, post_record-Held, load_context-Reads, no_context-Reads, po_rest-Held, si_rest-Held,
  expense_rest-Held,
}

module _ (base : Db) where
  nothing-Held : (r : RecordRow) → Keeps (Held base) (nothing_more r)
  nothing-Held r w h = h

  -- The three shapes of handlers.
  to_approved-Held :
      (kind : RecordType) (target : RecordStatus) (rest : RecordRow → Action (Unit {0}))
      (e : WorkflowEvent)
      → Backing kind e.record_id base
      → ((r : RecordRow) → Keeps (Held base) (rest r))
      → Keeps (Held base) (converge_approved kind target rest e)
  to_approved-Held kind target rest e b =
      converge-Held base kind target workflow_approved no_context rest e (λ p. b)
        (no_context-Reads e)

  to_returned-Held :
      (kind : RecordType) (target : RecordStatus) (e : WorkflowEvent)
      → is_past_approval kind target ≡ false
      → Keeps (Held base) (converge_returned kind target e)
  to_returned-Held kind target e n =
      converge-Held base kind target Trigger.workflow_returned load_context nothing_more e
        (λ p. absurd (cc (n, p))) (load_context-Reads e) nothing-Held

  to_rejected-Held :
      (kind : RecordType) (target : RecordStatus) (e : WorkflowEvent)
      → is_past_approval kind target ≡ false
      → Keeps (Held base) (converge_rejected kind target e)
  to_rejected-Held kind target e n =
      converge-Held base kind target Trigger.workflow_rejected no_context nothing_more e
        (λ p. absurd (cc (n, p))) (no_context-Reads e) nothing-Held

  pub approved-Held :
      (reg : Registry) (kind : RecordType) (e : WorkflowEvent)
      → Backing kind e.record_id base
      → Keeps (Held base) (approved_handler reg kind e)
  unfolding handle_ipa_approved handle_ipc_approved handle_rfq_approved handle_variation_approved
      handle_correspondence_approved handle_po_approved handle_supplier_invoice_approved
      handle_expense_approved handle_cost_proposal_approved handle_tax_invoice_approved
      handle_vendor_contract_approved handle_framework_agreement_approved
      handle_credit_note_approved
  approved-Held reg RecordType.ipa e b =
      to_approved-Held RecordType.ipa RecordStatus.approved_internal
        (λ r. post_record reg ipa_approved commercial_service r e.actor_user_id) e b
        (λ r. post_record-Held base reg ipa_approved commercial_service r e.actor_user_id)
  approved-Held reg RecordType.ipc e b =
      to_approved-Held RecordType.ipc RecordStatus.approved_internal nothing_more e b nothing-Held
  approved-Held reg RecordType.rfq e b =
      to_approved-Held RecordType.rfq RecordStatus.approved_internal nothing_more e b nothing-Held
  approved-Held reg RecordType.variation e b =
      to_approved-Held RecordType.variation RecordStatus.approved_internal
        (λ r. post_record reg variation_approved_internal commercial_service r e.actor_user_id) e b
        (λ r.
          post_record-Held base reg variation_approved_internal commercial_service r
            e.actor_user_id)
  approved-Held reg RecordType.correspondence e b =
      to_approved-Held RecordType.correspondence RecordStatus.approved_internal nothing_more e b
        nothing-Held
  approved-Held reg RecordType.purchase_order e b =
      to_approved-Held RecordType.purchase_order RecordStatus.approved
        (absorb_and_post_po reg e.actor_user_id) e b (po_rest-Held base reg e.actor_user_id)
  approved-Held reg RecordType.supplier_invoice e b =
      to_approved-Held RecordType.supplier_invoice RecordStatus.approved
        (absorb_and_post_si reg e.actor_user_id) e b (si_rest-Held base reg e.actor_user_id)
  approved-Held reg RecordType.expense e b =
      to_approved-Held RecordType.expense RecordStatus.approved
        (absorb_and_post_expense reg e.actor_user_id) e b
        (expense_rest-Held base reg e.actor_user_id)
  approved-Held reg RecordType.cost_proposal e b =
      to_approved-Held RecordType.cost_proposal RecordStatus.approved_internal nothing_more e b
        nothing-Held
  approved-Held reg RecordType.tax_invoice e b =
      to_approved-Held RecordType.tax_invoice RecordStatus.approved_internal nothing_more e b
        nothing-Held
  approved-Held reg RecordType.vendor_contract e b =
      to_approved-Held RecordType.vendor_contract RecordStatus.approved_internal nothing_more e b
        nothing-Held
  approved-Held reg RecordType.framework_agreement e b =
      to_approved-Held RecordType.framework_agreement RecordStatus.approved_internal nothing_more e
        b nothing-Held
  approved-Held reg RecordType.credit_note e b =
      to_approved-Held RecordType.credit_note RecordStatus.verified nothing_more e b nothing-Held
  approved-Held reg RecordType.drawing_revision e b = drawing-Held base e b

  pub returned-Held :
      (kind : RecordType) (e : WorkflowEvent) → Keeps (Held base) (returned_handler kind e)
  unfolding handle_ipa_returned handle_ipc_returned handle_rfq_returned handle_variation_returned
      handle_correspondence_returned handle_po_returned handle_supplier_invoice_returned
      handle_expense_returned handle_cost_proposal_returned handle_tax_invoice_returned
      handle_vendor_contract_returned handle_framework_agreement_returned
  returned-Held RecordType.ipa e = to_returned-Held RecordType.ipa RecordStatus.returned e refl
  returned-Held RecordType.ipc e = to_returned-Held RecordType.ipc RecordStatus.returned e refl
  returned-Held RecordType.rfq e = to_returned-Held RecordType.rfq RecordStatus.returned e refl
  returned-Held RecordType.variation e =
      to_returned-Held RecordType.variation RecordStatus.returned e refl
  returned-Held RecordType.correspondence e =
      to_returned-Held RecordType.correspondence RecordStatus.returned e refl
  returned-Held RecordType.purchase_order e =
      to_returned-Held RecordType.purchase_order RecordStatus.returned e refl
  returned-Held RecordType.supplier_invoice e =
      to_returned-Held RecordType.supplier_invoice RecordStatus.disputed e refl
  returned-Held RecordType.expense e =
      to_returned-Held RecordType.expense RecordStatus.returned e refl
  returned-Held RecordType.cost_proposal e =
      to_returned-Held RecordType.cost_proposal RecordStatus.returned e refl
  returned-Held RecordType.tax_invoice e =
      to_returned-Held RecordType.tax_invoice RecordStatus.returned e refl
  returned-Held RecordType.vendor_contract e =
      to_returned-Held RecordType.vendor_contract RecordStatus.returned e refl
  returned-Held RecordType.framework_agreement e =
      to_returned-Held RecordType.framework_agreement RecordStatus.returned e refl
  returned-Held RecordType.credit_note e = λ w h. h
  returned-Held RecordType.drawing_revision e = λ w h. h

  pub rejected-Held :
      (kind : RecordType) (e : WorkflowEvent) → Keeps (Held base) (rejected_handler kind e)
  unfolding handle_ipa_rejected handle_ipc_rejected handle_rfq_rejected handle_variation_rejected
      handle_correspondence_rejected handle_po_rejected handle_supplier_invoice_rejected
      handle_expense_rejected handle_cost_proposal_rejected handle_tax_invoice_rejected
      handle_vendor_contract_rejected handle_framework_agreement_rejected
      handle_credit_note_rejected
  rejected-Held RecordType.ipa e = to_rejected-Held RecordType.ipa RecordStatus.rejected e refl
  rejected-Held RecordType.ipc e = to_rejected-Held RecordType.ipc RecordStatus.rejected e refl
  rejected-Held RecordType.rfq e = to_rejected-Held RecordType.rfq RecordStatus.rejected e refl
  rejected-Held RecordType.variation e =
      to_rejected-Held RecordType.variation RecordStatus.rejected e refl
  rejected-Held RecordType.correspondence e =
      to_rejected-Held RecordType.correspondence RecordStatus.rejected e refl
  rejected-Held RecordType.purchase_order e =
      to_rejected-Held RecordType.purchase_order RecordStatus.rejected e refl
  rejected-Held RecordType.supplier_invoice e =
      to_rejected-Held RecordType.supplier_invoice RecordStatus.rejected e refl
  rejected-Held RecordType.expense e =
      to_rejected-Held RecordType.expense RecordStatus.rejected e refl
  rejected-Held RecordType.cost_proposal e =
      to_rejected-Held RecordType.cost_proposal RecordStatus.rejected e refl
  rejected-Held RecordType.tax_invoice e =
      to_rejected-Held RecordType.tax_invoice RecordStatus.cancelled e refl
  rejected-Held RecordType.vendor_contract e =
      to_rejected-Held RecordType.vendor_contract RecordStatus.rejected e refl
  rejected-Held RecordType.framework_agreement e =
      to_rejected-Held RecordType.framework_agreement RecordStatus.rejected e refl
  rejected-Held RecordType.credit_note e =
      to_rejected-Held RecordType.credit_note RecordStatus.cancelled e refl
  rejected-Held RecordType.drawing_revision e = λ w h. h
