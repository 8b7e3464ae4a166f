-- ===== src/Convergence/Commercial.antt =====
-- packages/core/src/workflow/convergence-handlers.ts: the handlers of the commercial records.
use fun_makers_system.Data.Records.{
  ipa, ipc, variation, correspondence, cost_proposal, tax_invoice, approved_internal, returned,
  rejected, cancelled,
}
use fun_makers_system.Posting.Registry.{Registry}
use fun_makers_system.Workflow.Bus.{Handler}
use fun_makers_system.Convergence.{
  converge_approved, converge_returned, converge_rejected, nothing_more, post_record,
  commercial_service, ipa_approved, variation_approved_internal,
}

unfoldable pub handle_ipa_approved : Registry → Handler
handle_ipa_approved reg e =
    converge_approved ipa approved_internal
      (λ r. post_record reg ipa_approved commercial_service r e.actor_user_id) e

unfoldable pub handle_ipa_returned : Handler
handle_ipa_returned e = converge_returned ipa returned e

unfoldable pub handle_ipa_rejected : Handler
handle_ipa_rejected e = converge_rejected ipa rejected e

unfoldable pub handle_ipc_approved : Handler
handle_ipc_approved e = converge_approved ipc approved_internal nothing_more e

unfoldable pub handle_ipc_returned : Handler
handle_ipc_returned e = converge_returned ipc returned e

unfoldable pub handle_ipc_rejected : Handler
handle_ipc_rejected e = converge_rejected ipc rejected e

unfoldable pub handle_variation_approved : Registry → Handler
handle_variation_approved reg e =
    converge_approved variation approved_internal
      (λ r. post_record reg variation_approved_internal commercial_service r e.actor_user_id) e

unfoldable pub handle_variation_returned : Handler
handle_variation_returned e = converge_returned variation returned e

unfoldable pub handle_variation_rejected : Handler
handle_variation_rejected e = converge_rejected variation rejected e

unfoldable pub handle_correspondence_approved : Handler
handle_correspondence_approved e = converge_approved correspondence approved_internal nothing_more e

unfoldable pub handle_correspondence_returned : Handler
handle_correspondence_returned e = converge_returned correspondence returned e

unfoldable pub handle_correspondence_rejected : Handler
handle_correspondence_rejected e = converge_rejected correspondence rejected e

unfoldable pub handle_cost_proposal_approved : Handler
handle_cost_proposal_approved e = converge_approved cost_proposal approved_internal nothing_more e

unfoldable pub handle_cost_proposal_returned : Handler
handle_cost_proposal_returned e = converge_returned cost_proposal returned e

unfoldable pub handle_cost_proposal_rejected : Handler
handle_cost_proposal_rejected e = converge_rejected cost_proposal rejected e

unfoldable pub handle_tax_invoice_approved : Handler
handle_tax_invoice_approved e = converge_approved tax_invoice approved_internal nothing_more e

unfoldable pub handle_tax_invoice_returned : Handler
handle_tax_invoice_returned e = converge_returned tax_invoice returned e

-- There is no rejected tax invoice: it is cancelled.
unfoldable pub handle_tax_invoice_rejected : Handler
handle_tax_invoice_rejected e = converge_rejected tax_invoice cancelled e
