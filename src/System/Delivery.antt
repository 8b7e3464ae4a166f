-- ===== src/System/Delivery.antt =====
-- A step of the whole system, and its runs. A request to the engine is followed by the delivery of the
-- events that it emitted, in order. The transitions emit nothing but `workflow_started`, to which
-- convergence does not subscribe, and so nothing is delivered after them.
use fun_makers_system.Base.{ℕ, Option, List, [], ◌∷◌}
use fun_makers_system.Effects.{World}
use fun_makers_system.Posting.Registry.{Registry}
use fun_makers_system.Workflow.Bus.{dispatch_all}
use fun_makers_system.Workflow.Lifecycle.{Request, perform}
use fun_makers_system.Workflow.Resolution.{TemplateCodes}
use fun_makers_system.Convergence.Dispatch.{convergence_bus}
use fun_makers_system.Transitions.{TransitionInput}
use fun_makers_system.Transitions.Rfq.{transition_rfq}
use fun_makers_system.Transitions.Services.{
  transition_purchase_order, transition_supplier_invoice, transition_expense,
  transition_credit_note, transition_vendor_contract,
}

pub data SystemRequest : Type 0 where
  engine : Request → SystemRequest
  purchase_order supplier_invoice expense credit_note vendor_contract :
      TransitionInput → SystemRequest
  rfq : TransitionInput → Option ℕ → SystemRequest

-- Nothing is left to deliver.
abbrev pub quiet : World → World
quiet w = record w { emitted = [] }

-- `for (const e of emitted) await workflowEvents.emit(e)`
abbrev pub deliver : Registry → World → World
deliver reg w = (dispatch_all (convergence_bus reg) w.emitted w).1

unfoldable pub serve : Registry → TemplateCodes → SystemRequest → World → World
serve reg codes (engine r) w = deliver reg (perform r (quiet w))
serve reg codes (purchase_order p) w = (transition_purchase_order reg codes p w).1
serve reg codes (supplier_invoice p) w = (transition_supplier_invoice reg codes p w).1
serve reg codes (expense p) w = (transition_expense reg codes p w).1
serve reg codes (credit_note p) w = (transition_credit_note reg p w).1
serve reg codes (vendor_contract p) w = (transition_vendor_contract reg p w).1
serve reg codes (rfq p quotation_id) w = (transition_rfq codes p quotation_id w).1

unfoldable pub serve_all : Registry → TemplateCodes → List SystemRequest → World → World
serve_all reg codes [] w = w
serve_all reg codes (q ∷ qs) w = serve_all reg codes qs (serve reg codes q w)
