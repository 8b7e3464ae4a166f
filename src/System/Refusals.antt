-- ===== src/System/Refusals.antt =====
-- The manual transitions that are refused, and what a refusal leaves.
use fun_makers_system.Base.{◌≡◌, inl, inr, true, false, Option, none, some, arith}
use fun_makers_system.Data.Records.{same_status, RecordType, RecordStatus, RecordAction, RecordRow}
use fun_makers_system.Effects.{World, Action, ◌>>=◌, ◌>>◌}
use fun_makers_system.Effects.Laws.{Outcome-cases}
use fun_makers_system.Posting.Registry.{Registry}
use fun_makers_system.Workflow.Resolution.{TemplateCodes}
use fun_makers_system.Convergence.{find_row}
use fun_makers_system.Transitions.{
  Machine, TransitionInput, check_transition, write_transition, has_status, has_action,
}
use fun_makers_system.Transitions.Rfq.{transition_rfq, issue_or_move}
use fun_makers_system.Transitions.Tables.{
  rfq_machine, vendor_contract_machine, po_machine, si_machine, expense_machine, cn_machine,
}
use fun_makers_system.Transitions.Services.{
  transition_vendor_contract, after_vendor_contract, transition_purchase_order,
  transition_supplier_invoice, transition_expense, transition_credit_note, after_po, after_si,
  after_expense, after_cn,
}
use fun_makers_system.System.Checked.{
  CheckedTransition, check_transition-Reads, check_transition-Checked,
}
use fun_makers_system.System.Delivery.{
  rfq, vendor_contract, SystemRequest, engine, purchase_order, supplier_invoice, expense,
  credit_note, serve,
}

-- Without a row and a status that pass the checks, nothing is written.
refused :
    (m : Machine) (p : TransitionInput) (body : RecordRow → RecordStatus → Action (Unit {0}))
    (w : World)
    → ((r : RecordRow) (t : RecordStatus) → CheckedTransition m p w r t → ⊥)
    → let step : Action (Unit {0}) = check_transition m p >>= λ (r, t). body r t in
      (step w).1.db ≡ w.db
refused m p body w never = elim (Outcome-cases (check_transition m p w).0) [
  | inl ((r, t), e) ↦ absurd (never r t (check_transition-Checked m p w r t e))
  | inr (x, e) ↦ ground (arith, e, check_transition-Reads m p w)
]

-- The table of the service that a manual transition is a request to.
abbrev pub machine_of : SystemRequest → Option (Machine × TransitionInput)
machine_of (engine r) = none
machine_of (purchase_order p) = some (po_machine, p)
machine_of (supplier_invoice p) = some (si_machine, p)
machine_of (expense p) = some (expense_machine, p)
machine_of (credit_note p) = some (cn_machine, p)
machine_of (vendor_contract p) = some (vendor_contract_machine, p)
machine_of (rfq p quotation_id) = some (rfq_machine, p)

abbrev About : (Machine → TransitionInput → Type 0) → SystemRequest → Type 0
About P q = elim (machine_of q) [ none ↦ ⊥ | some (m, p) ↦ P m p ]

-- A manual transition that the checks refuse writes nothing.
serve-refused :
    (reg : Registry) (codes : TemplateCodes) (q : SystemRequest) (w : World)
    → About (λ m p. (r : RecordRow) (t : RecordStatus) → CheckedTransition m p w r t → ⊥) q
    → (serve reg codes q w).db ≡ w.db
unfolding serve transition_purchase_order transition_supplier_invoice transition_expense
    transition_credit_note transition_vendor_contract transition_rfq
serve-refused reg codes (engine r) w never = absurd never
serve-refused reg codes (purchase_order p) w never =
    refused po_machine p
      (λ r t.
        write_transition RecordType.purchase_order p r t >> after_po reg codes r t p.actor_user_id)
      w never
serve-refused reg codes (supplier_invoice p) w never =
    refused si_machine p
      (λ r t.
        write_transition RecordType.supplier_invoice p r t
        >> after_si reg codes r t p.actor_user_id)
      w never
serve-refused reg codes (expense p) w never =
    refused expense_machine p
      (λ r t.
        write_transition RecordType.expense p r t >> after_expense reg codes r t p.actor_user_id)
      w never
serve-refused reg codes (credit_note p) w never =
    refused cn_machine p
      (λ r t. write_transition RecordType.credit_note p r t >> after_cn reg r t p.actor_user_id) w
      never
serve-refused reg codes (vendor_contract p) w never =
    refused vendor_contract_machine p
      (λ r t.
        write_transition RecordType.vendor_contract p r t
        >> after_vendor_contract reg r t p.actor_user_id)
      w never
serve-refused reg codes (rfq p quotation_id) w never =
    refused rfq_machine p
      (λ r t. issue_or_move (same_status t RecordStatus.issued) codes p quotation_id r t) w never

-- The row that a request names has a terminal status of its table.
abbrev pub OnTerminal : SystemRequest → World → Type 0
OnTerminal q w =
    About
      (λ m p.
        (r : RecordRow) × (find_row m.kind p.id w.db.records.rows ≡ some r)
        × (has_status m.terminal r.status ≡ true))
      q

not_terminal :
    (m : Machine) (p : TransitionInput) (w : World) (r r' : RecordRow) (t : RecordStatus)
    → find_row m.kind p.id w.db.records.rows ≡ some r
    → has_status m.terminal r.status ≡ true
    → CheckedTransition m p w r' t
    → ⊥
not_terminal m p w r r' t f h c =
    let same : r' ≡ r = ground (arith, c.row_found, f) in cc (rw same at c.alive, h)

-- A manual transition of a purchase order, a supplier invoice, an expense, a credit note, a vendor
-- contract or a request for quotation whose status is terminal in its service's table writes nothing,
-- whatever the action.
pub serve_terminal_unchanged :
    (reg : Registry) (codes : TemplateCodes) (q : SystemRequest) (w : World)
    → OnTerminal q w
    → (serve reg codes q w).db ≡ w.db
serve_terminal_unchanged reg codes (engine r) w h = absurd h
serve_terminal_unchanged reg codes (purchase_order p) w (r, f, h) =
    serve-refused reg codes (purchase_order p) w (λ r' t. not_terminal po_machine p w r r' t f h)
serve_terminal_unchanged reg codes (supplier_invoice p) w (r, f, h) =
    serve-refused reg codes (supplier_invoice p) w (λ r' t. not_terminal si_machine p w r r' t f h)
serve_terminal_unchanged reg codes (expense p) w (r, f, h) =
    serve-refused reg codes (expense p) w (λ r' t. not_terminal expense_machine p w r r' t f h)
serve_terminal_unchanged reg codes (credit_note p) w (r, f, h) =
    serve-refused reg codes (credit_note p) w (λ r' t. not_terminal cn_machine p w r r' t f h)
serve_terminal_unchanged reg codes (vendor_contract p) w (r, f, h) =
    serve-refused reg codes (vendor_contract p) w
      (λ r' t. not_terminal vendor_contract_machine p w r r' t f h)
serve_terminal_unchanged reg codes (rfq p quotation_id) w (r, f, h) =
    serve-refused reg codes (rfq p quotation_id) w (λ r' t. not_terminal rfq_machine p w r r' t f h)

-- A submitted purchase order cannot be moved by hand: every manual transition of it writes nothing,
-- whether or not a workflow instance exists for it.
pub submitted_purchase_order_is_stranded :
    (reg : Registry) (codes : TemplateCodes) (p : TransitionInput) (w : World) (r : RecordRow)
    → find_row RecordType.purchase_order p.id w.db.records.rows ≡ some r
    → r.status ≡ RecordStatus.submitted
    → (transition_purchase_order reg codes p w).1.db ≡ w.db
unfolding transition_purchase_order
submitted_purchase_order_is_stranded reg codes p w r f h =
    refused po_machine p
      (λ r t.
        write_transition RecordType.purchase_order p r t >> after_po reg codes r t p.actor_user_id)
      w
      (λ r' t c.
        let same : r' ≡ r = ground (arith, c.row_found, f) in
        stuck p.action t c.targeted (rw (same, h) at c.permitted) c.unmanaged)
  where
    stuck :
        (a : RecordAction) (t : RecordStatus)
        → po_machine.target a ≡ some t
        → has_status (po_machine.allowed RecordStatus.submitted) t ≡ true
        → has_action po_machine.managed a ≡ false
        → ⊥
    stuck a t e h u = ground arith
