-- ===== src/System/Handlers.antt =====
-- Every handler of a workflow event writes only statuses that its event vouches for.
use fun_makers_system.Base.{ℕ, ◌≡◌, Bool, true, false, Option, none, some, arith}
use fun_makers_system.Data.Records.{RecordType, RecordStatus, RecordRow, Trigger, same_status}
use fun_makers_system.Data.Workflow.{WorkflowEvent}
use fun_makers_system.Effects.{Db, Action, ◌>>◌, pure, query, command}
use fun_makers_system.Effects.Laws.{Reads, query-Reads}
use fun_makers_system.Effects.Keeps.{Keeps, Reads-Keeps, bind-Keeps}
use fun_makers_system.Data.Audit.{AuditEntry}
use fun_makers_system.Audit.{audit_log}
use fun_makers_system.Posting.Registry.{Registry}
use fun_makers_system.Posting.Service.{post}
use fun_makers_system.Budget.Absorption.{
  absorb_po_commitment_handler, absorb_supplier_invoice_handler, absorb_expense_handler,
}
use fun_makers_system.Convergence.{
  find_row, set_status, convergence_entry, write_status, converge, converge_found, converge_unless,
  supplier_invoice_approved, expense_approved, po_committed, load_context, no_context, post_record,
  record_post, procurement_service,
}
use fun_makers_system.Convergence.Procurement.{
  absorb_and_post_po, absorb_and_post_si, absorb_and_post_expense,
}
use fun_makers_system.Convergence.Apart.{audit_log-Standing}
use fun_makers_system.Convergence.Apart.Handlers.{
  absorb_po-Standing, absorb_si-Standing, absorb_expense-Standing,
}
use fun_makers_system.Convergence.Apart.Postings.{post-Standing}
use fun_makers_system.System.{is_past_approval, Backing}
use fun_makers_system.System.Backed.{Held, write-Held, Standing-Held}

pub no_context-Reads : (e : WorkflowEvent) → Reads (no_context e)
no_context-Reads e w = ground arith

pub load_context-Reads : (e : WorkflowEvent) → Reads (load_context e)
load_context-Reads e w = ground arith

module _ (base : Db) where
  pub audit_log-Held : (e : AuditEntry) → Keeps (Held base) (audit_log e)
  audit_log-Held e = Standing-Held base (audit_log e) (λ R W. audit_log-Standing R W e)

  pub post_record-Held :
      (reg : Registry) (event_type service : ℕ) (r : RecordRow) (actor : ℕ)
      → Keeps (Held base) (post_record reg event_type service r actor)
  unfolding post_record
  post_record-Held reg event_type service r actor =
      let i = record_post event_type service r actor in
      bind-Keeps (Held base) (post reg i) (λ e. pure tt)
        (Standing-Held base (post reg i) (λ R W. post-Standing R W reg i)) (λ e w h. h)

  pub po_rest-Held :
      (reg : Registry) (actor : ℕ) (r : RecordRow)
      → Keeps (Held base) (absorb_and_post_po reg actor r)
  unfolding absorb_and_post_po
  po_rest-Held reg actor r =
      let m = absorb_po_commitment_handler r.project_id r.id actor in
      bind-Keeps (Held base) m (λ x. post_record reg po_committed procurement_service r actor)
        (Standing-Held base m (λ R W. absorb_po-Standing R W r.project_id r.id actor))
        (λ x. post_record-Held reg po_committed procurement_service r actor)

  pub si_rest-Held :
      (reg : Registry) (actor : ℕ) (r : RecordRow)
      → Keeps (Held base) (absorb_and_post_si reg actor r)
  unfolding absorb_and_post_si
  si_rest-Held reg actor r =
      let m = absorb_supplier_invoice_handler r.project_id r.id actor in
      bind-Keeps (Held base) m
        (λ x. post_record reg supplier_invoice_approved procurement_service r actor)
        (Standing-Held base m (λ R W. absorb_si-Standing R W r.project_id r.id actor))
        (λ x. post_record-Held reg supplier_invoice_approved procurement_service r actor)

  pub expense_rest-Held :
      (reg : Registry) (actor : ℕ) (r : RecordRow)
      → Keeps (Held base) (absorb_and_post_expense reg actor r)
  unfolding absorb_and_post_expense
  expense_rest-Held reg actor r =
      let m = absorb_expense_handler r.project_id r.id actor in
      bind-Keeps (Held base) m (λ x. post_record reg expense_approved procurement_service r actor)
        (Standing-Held base m (λ R W. absorb_expense-Standing R W r.project_id r.id actor))
        (λ x. post_record-Held reg expense_approved procurement_service r actor)

  module _ (kind : RecordType) (target : RecordStatus) (t : Trigger)
      (context : WorkflowEvent → Action (Unit {0})) (rest : RecordRow → Action (Unit {0}))
      (e : WorkflowEvent) (b : is_past_approval kind target ≡ true → Backing kind e.record_id base)
      (hc : Reads (context e)) (hr : (r : RecordRow) → Keeps (Held base) (rest r)) where
    write_status-Held : Keeps (Held base) (write_status kind target t e)
    unfolding write_status
    write_status-Held =
        bind-Keeps (Held base) (command (set_status kind e.record_id target))
          (λ x. audit_log (convergence_entry kind t e) >> pure tt)
          (write-Held base kind e.record_id target b)
          (λ x.
            bind-Keeps (Held base) (audit_log (convergence_entry kind t e)) (λ y. pure tt)
              (audit_log-Held (convergence_entry kind t e)) (λ y w h. h))

    unless-Held :
        (c : Bool) (r : RecordRow)
        → Keeps (Held base) (converge_unless c kind target t (context e) (rest r) e)
    unfolding converge_unless
    unless-Held true r = λ w h. h
    unless-Held false r =
        bind-Keeps (Held base) (context e) (λ x. write_status kind target t e >> rest r)
          (Reads-Keeps (Held base) (context e) hc)
          (λ x.
            bind-Keeps (Held base) (write_status kind target t e) (λ y. rest r) write_status-Held
              (λ y. hr r))

    found-Held :
        (found : Option RecordRow)
        → Keeps (Held base) (converge_found found kind target t context rest e)
    unfolding converge_found
    found-Held none = λ w h. h
    found-Held (some r) = unless-Held (same_status r.status target) r

    pub converge-Held : Keeps (Held base) (converge kind target t context rest e)
    unfolding converge
    converge-Held =
        bind-Keeps (Held base) (query (λ d. find_row kind e.record_id d.records.rows))
          (λ found. converge_found found kind target t context rest e)
          (Reads-Keeps (Held base) (query (λ d. find_row kind e.record_id d.records.rows))
            (query-Reads (λ d. find_row kind e.record_id d.records.rows)))
          found-Held
