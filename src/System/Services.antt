-- ===== src/System/Services.antt =====
-- The manual transitions keep the invariant of the system.
use fun_makers_system.Base.{ℕ, ◌≡◌, Bool, true, false, none, some, arith}
use fun_makers_system.Data.Records.{RecordStatus, RecordRow, same_status}
use fun_makers_system.Effects.{World, Action, ◌>>=◌, ◌>>◌, pure}
use fun_makers_system.Effects.Keeps.{Keeps, bind-Keeps}
use fun_makers_system.Posting.Registry.{Registry}
use fun_makers_system.Budget.Absorption.{reverse_po_commitment_handler, absorb_credit_note_handler}
use fun_makers_system.Workflow.Resolution.{TemplateCodes}
use fun_makers_system.Convergence.{
  vendor_contract_signed, post_record, procurement_service, po_issued, po_delivered,
  credit_note_applied,
}
use fun_makers_system.Convergence.Procurement.{absorb_and_post_si, absorb_and_post_expense}
use fun_makers_system.Convergence.Apart.Handlers.{reverse_po-Standing, absorb_credit_note-Standing}
use fun_makers_system.Transitions.{TransitionInput, start_workflow, when, has_status}
use fun_makers_system.Transitions.Tables.{
  vendor_contract_machine, po_machine, si_machine, expense_machine, cn_machine, po_approved_plus,
}
use fun_makers_system.Transitions.Services.{
  transition_vendor_contract, after_vendor_contract, transition_purchase_order,
  transition_supplier_invoice, transition_expense, transition_credit_note, after_po, after_si,
  after_expense, after_cn, po_approval, release_if, apply_credit_note,
}
use fun_makers_system.System.Backed.{Held, Standing-Held}
use fun_makers_system.System.Handlers.{post_record-Held, si_rest-Held, expense_rest-Held}
use fun_makers_system.System.Invariant.{SystemInv, Held-Keeps}
use fun_makers_system.System.Checked.{
  vendor_contract_machine-Guarded, CheckedTransition, po_machine-Guarded, si_machine-Guarded,
  expense_machine-Guarded, cn_machine-Guarded,
}
use fun_makers_system.System.Writes.{start_workflow-Keeps, when-Keeps, transition-Keeps}

approval_by_engine :
    (p : TransitionInput) (w : World) (r : RecordRow) (t : RecordStatus)
    → CheckedTransition po_machine p w r t
    → same_status t RecordStatus.approved ≡ true
    → ⊥
approval_by_engine p w r t c y = ground (arith, c.targeted, c.unmanaged)

release_if-Keeps : (b : Bool) (r : RecordRow) (actor : ℕ) → Keeps SystemInv (release_if b r actor)
unfolding release_if
release_if-Keeps false r actor = λ w h. h
release_if-Keeps true r actor =
    let m = reverse_po_commitment_handler r.project_id r.id actor in
    Held-Keeps (m >>= λ x. pure tt) (λ base.
      bind-Keeps (Held base) m (λ x. pure tt)
        (Standing-Held base m (λ R W. reverse_po-Standing R W r.project_id r.id actor))
        (λ x w h. h))

post-Keeps :
    (reg : Registry) (event_type : ℕ) (r : RecordRow) (actor : ℕ)
    → Keeps SystemInv (post_record reg event_type procurement_service r actor)
post-Keeps reg event_type r actor =
    Held-Keeps (post_record reg event_type procurement_service r actor)
      (λ base. post_record-Held base reg event_type procurement_service r actor)

after_po-Keeps :
    (reg : Registry) (codes : TemplateCodes) (r : RecordRow) (t : RecordStatus) (actor : ℕ)
    → (same_status t RecordStatus.approved ≡ true → ⊥)
    → Keeps SystemInv (after_po reg codes r t actor)
unfolding after_po
after_po-Keeps reg codes r t actor refused =
    let start = start_workflow codes r actor (some r.amount) in
    let at : RecordStatus → Bool = same_status t in
    let issue = post_record reg po_issued procurement_service r actor in
    let deliver = post_record reg po_delivered procurement_service r actor in
    let release = release_if (has_status po_approved_plus r.status) r actor in
    let last = when (at RecordStatus.delivered) deliver in
    let fourth = when (at RecordStatus.issued) issue >> last in
    let third = when (at RecordStatus.cancelled) release >> fourth in
    let second = when (at RecordStatus.approved) (po_approval reg r actor) >> third in
    bind-Keeps SystemInv (when (at RecordStatus.submitted) start) (λ x. second)
      (when-Keeps (at RecordStatus.submitted) start
        (λ y. start_workflow-Keeps codes r actor (some r.amount)))
      (λ x.
        bind-Keeps SystemInv (when (at RecordStatus.approved) (po_approval reg r actor))
          (λ x. third)
          (when-Keeps (at RecordStatus.approved) (po_approval reg r actor)
            (λ y. absurd (refused y)))
          (λ x.
            bind-Keeps SystemInv (when (at RecordStatus.cancelled) release) (λ x. fourth)
              (when-Keeps (at RecordStatus.cancelled) release
                (λ y. release_if-Keeps (has_status po_approved_plus r.status) r actor))
              (λ x.
                bind-Keeps SystemInv (when (at RecordStatus.issued) issue) (λ x. last)
                  (when-Keeps (at RecordStatus.issued) issue
                    (λ y. post-Keeps reg po_issued r actor))
                  (λ x.
                    when-Keeps (at RecordStatus.delivered) deliver
                      (λ y. post-Keeps reg po_delivered r actor)))))

pub purchase_order-Keeps :
    (reg : Registry) (codes : TemplateCodes) (p : TransitionInput)
    → Keeps SystemInv (transition_purchase_order reg codes p)
unfolding transition_purchase_order
purchase_order-Keeps reg codes p =
    transition-Keeps po_machine po_machine-Guarded p (λ r t. after_po reg codes r t p.actor_user_id)
      (λ w r t c. after_po-Keeps reg codes r t p.actor_user_id (approval_by_engine p w r t c))

-- A start of the workflow, then what the approval would have done.
start_and_rest-Keeps :
    (b c : Bool) (start rest : Action (Unit {0}))
    → Keeps SystemInv start
    → Keeps SystemInv rest
    → Keeps SystemInv (when b start >> when c rest)
start_and_rest-Keeps b c start rest hs hr =
    bind-Keeps SystemInv (when b start) (λ x. when c rest) (when-Keeps b start (λ y. hs))
      (λ x. when-Keeps c rest (λ y. hr))

pub supplier_invoice-Keeps :
    (reg : Registry) (codes : TemplateCodes) (p : TransitionInput)
    → Keeps SystemInv (transition_supplier_invoice reg codes p)
unfolding transition_supplier_invoice after_si
supplier_invoice-Keeps reg codes p =
    let a = p.actor_user_id in
    transition-Keeps si_machine si_machine-Guarded p (λ r t. after_si reg codes r t a)
      (λ w r t c.
        start_and_rest-Keeps (same_status t RecordStatus.under_review)
          (same_status t RecordStatus.approved) (start_workflow codes r a none)
          (absorb_and_post_si reg a r) (start_workflow-Keeps codes r a none)
          (Held-Keeps (absorb_and_post_si reg a r) (λ base. si_rest-Held base reg a r)))

pub expense-Keeps :
    (reg : Registry) (codes : TemplateCodes) (p : TransitionInput)
    → Keeps SystemInv (transition_expense reg codes p)
unfolding transition_expense after_expense
expense-Keeps reg codes p =
    let a = p.actor_user_id in
    transition-Keeps expense_machine expense_machine-Guarded p
      (λ r t. after_expense reg codes r t a)
      (λ w r t c.
        start_and_rest-Keeps (same_status t RecordStatus.submitted)
          (same_status t RecordStatus.approved) (start_workflow codes r a (some r.amount))
          (absorb_and_post_expense reg a r) (start_workflow-Keeps codes r a (some r.amount))
          (Held-Keeps (absorb_and_post_expense reg a r) (λ base. expense_rest-Held base reg a r)))

apply_credit_note-Keeps :
    (reg : Registry) (r : RecordRow) (actor : ℕ) → Keeps SystemInv (apply_credit_note reg r actor)
unfolding apply_credit_note
apply_credit_note-Keeps reg r actor =
    let m = absorb_credit_note_handler r.project_id r.id actor in
    let k = post_record reg credit_note_applied procurement_service r actor in
    Held-Keeps (m >>= λ x. k) (λ base.
      bind-Keeps (Held base) m (λ x. k)
        (Standing-Held base m (λ R W. absorb_credit_note-Standing R W r.project_id r.id actor))
        (λ x. post_record-Held base reg credit_note_applied procurement_service r actor))

pub vendor_contract-Keeps :
    (reg : Registry) (p : TransitionInput) → Keeps SystemInv (transition_vendor_contract reg p)
unfolding transition_vendor_contract after_vendor_contract
vendor_contract-Keeps reg p =
    let a = p.actor_user_id in
    transition-Keeps vendor_contract_machine vendor_contract_machine-Guarded p
      (λ r t. after_vendor_contract reg r t a)
      (λ w r t c.
        when-Keeps (same_status t RecordStatus.signed)
          (post_record reg vendor_contract_signed procurement_service r a)
          (λ y. post-Keeps reg vendor_contract_signed r a))

pub credit_note-Keeps :
    (reg : Registry) (p : TransitionInput) → Keeps SystemInv (transition_credit_note reg p)
unfolding transition_credit_note after_cn
credit_note-Keeps reg p =
    let a = p.actor_user_id in
    transition-Keeps cn_machine cn_machine-Guarded p (λ r t. after_cn reg r t a)
      (λ w r t c.
        when-Keeps (same_status t RecordStatus.applied) (apply_credit_note reg r a)
          (λ y. apply_credit_note-Keeps reg r a))
