-- ===== src/System/Runs.antt =====
-- Every run of the whole system, from one with no instances and no record past its approval.
use fun_makers_system.Base.{
  ℕ, ◌≡◌, refl, true, false, some, List, [], ◌∷◌, All, All-In, All-map, In, find-In,
}
use fun_makers_system.Data.Records.{RecordType, RecordRow, type_code}
use fun_makers_system.Data.Workflow.{WorkflowStep, approved}
use fun_makers_system.Effects.{World, Db}
use fun_makers_system.Posting.Registry.{Registry}
use fun_makers_system.Workflow.Order.{Loaded, find_loaded}
use fun_makers_system.Workflow.Lifecycle.{Request, perform}
use fun_makers_system.Workflow.Lifecycle.Template.{GoodTemplates}
use fun_makers_system.Workflow.Lifecycle.Coverage.{HasApproval}
use fun_makers_system.Workflow.Lifecycle.Runs.{perform-EngineInv, empty-EngineInv}
use fun_makers_system.Workflow.Resolution.{TemplateCodes}
use fun_makers_system.Convergence.{is_row, find_row}
use fun_makers_system.System.{is_past_approval, Backing, BackedRow}
use fun_makers_system.System.Backed.{Held, is_row_iff}
use fun_makers_system.System.Dispatch.{dispatch_all-Held}
use fun_makers_system.System.Requests.{perform-Step}
use fun_makers_system.System.Invariant.{SystemInv, Held-SystemInv, BackedRows-Kept}
use fun_makers_system.System.Services.{
  purchase_order-Keeps, supplier_invoice-Keeps, expense-Keeps, credit_note-Keeps,
  vendor_contract-Keeps,
}
use fun_makers_system.System.Rfq.{rfq-Keeps}
use fun_makers_system.System.Delivery.{
  rfq, SystemRequest, engine, purchase_order, supplier_invoice, expense, credit_note,
  vendor_contract, quiet, deliver, serve, serve_all,
}

-- What the engine has done, before the delivery.
performed-Held :
    (r : Request) (w : World)
    → SystemInv w.db
    → w.emitted ≡ []
    → let d = (perform r w).db in Held d d
performed-Held r w h n =
    let s = perform-Step r w n in
    let d = (perform r w).db in
    record {
      same_workflow = refl;
      backed = rw s.same_records (BackedRows-Kept w.db d w.db.records.rows s.kept h.backed);
    }

engine-SystemInv :
    (reg : Registry) (r : Request) (w : World)
    → SystemInv w.db
    → w.emitted ≡ []
    → SystemInv (deliver reg (perform r w)).db
engine-SystemInv reg r w h n =
    let v = perform r w in
    Held-SystemInv v.db (deliver reg v).db (perform-EngineInv r w h.engine)
      (dispatch_all-Held v.db reg v.emitted (perform-Step r w n).vouched v (performed-Held r w h n))

serve-SystemInv :
    (reg : Registry) (codes : TemplateCodes) (q : SystemRequest) (w : World)
    → SystemInv w.db
    → SystemInv (serve reg codes q w).db
unfolding serve
serve-SystemInv reg codes (engine r) w h = engine-SystemInv reg r (quiet w) h refl
serve-SystemInv reg codes (purchase_order p) w h = purchase_order-Keeps reg codes p w h
serve-SystemInv reg codes (supplier_invoice p) w h = supplier_invoice-Keeps reg codes p w h
serve-SystemInv reg codes (expense p) w h = expense-Keeps reg codes p w h
serve-SystemInv reg codes (credit_note p) w h = credit_note-Keeps reg p w h
serve-SystemInv reg codes (vendor_contract p) w h = vendor_contract-Keeps reg p w h
serve-SystemInv reg codes (rfq p o) w h = rfq-Keeps codes p o w h

serve_all-SystemInv :
    (reg : Registry) (codes : TemplateCodes) (qs : List SystemRequest) (w : World)
    → SystemInv w.db
    → SystemInv (serve_all reg codes qs w).db
unfolding serve_all
serve_all-SystemInv reg codes [] w h = h
serve_all-SystemInv reg codes (q ∷ qs) w h =
    serve_all-SystemInv reg codes qs (serve reg codes q w) (serve-SystemInv reg codes q w h)

-- No record is past its approval.
abbrev pub Unapproved : RecordRow → Type 0
Unapproved r = is_past_approval r.kind r.status ≡ false

initial-SystemInv :
    (d : Db)
    → GoodTemplates d.workflow.templates
    → d.workflow.instances ≡ []
    → All Unapproved d.records.rows
    → SystemInv d
initial-SystemInv d g e u = record {
  engine = empty-EngineInv d g e;
  backed = All-map Unapproved (BackedRow d) (λ r n p. absurd (cc (n, p))) d.records.rows u;
}

-- What stands behind a record that is past its approval: a workflow instance for it, which is approved,
-- and in the log an approval of each required step of its template.
pub record ApprovedBy (kind : RecordType) (id : ℕ) (d : Db) : Type 0 where
  pub instance_id : ℕ
  pub loaded : Loaded
  pub found : find_loaded instance_id d ≡ some loaded
  pub of_type : loaded.instance_row.record_type ≡ type_code kind
  pub of_record : loaded.instance_row.record_id ≡ id
  pub completed : loaded.instance_row.status ≡ approved
  pub every_step :
      (s : WorkflowStep)
      → In s loaded.steps
      → s.is_optional ≡ false
      → HasApproval instance_id s.id d.workflow.actions

-- After any requests to the engine, each followed by the delivery of its events, and any manual
-- transitions of purchase orders, supplier invoices, expenses, credit notes, vendor contracts and
-- requests for quotation, whatever they return and wherever calls of the database fail: a record with
-- a status that, for its type, comes after an approval (there is none for credit notes, vendor
-- contracts, framework agreements, cost proposals and tax invoices) is the record of an approved
-- workflow instance, of whose template each required step has an approval in the log. The run begins
-- with no instances, with no record past its approval, and with templates whose steps have distinct
-- order indices and ids.
pub serve_all_approves_by_workflow :
    (reg : Registry) (codes : TemplateCodes) (qs : List SystemRequest) (w : World)
    (kind : RecordType) (id : ℕ) (r : RecordRow)
    → GoodTemplates w.db.workflow.templates
    → w.db.workflow.instances ≡ []
    → All Unapproved w.db.records.rows
    → find_row kind id (serve_all reg codes qs w).db.records.rows ≡ some r
    → is_past_approval kind r.status ≡ true
    → ApprovedBy kind id (serve_all reg codes qs w).db
serve_all_approves_by_workflow reg codes qs w kind id r g e u found past =
    let d = (serve_all reg codes qs w).db in
    let inv = serve_all-SystemInv reg codes qs w (initial-SystemInv w.db g e u) in
    let (m, t) = find-In (is_row kind id) d.records.rows r found in
    let (k, i) = is_row_iff kind id r t in
    let b : Backing kind id d =
      rw (← k, ← i) (All-In (BackedRow d) d.records.rows r inv.backed m (rw k past)) in
    record {
      instance_id = b.instance_id;
      loaded = b.loaded;
      found = b.found;
      of_type = b.of_type;
      of_record = b.of_record;
      completed = b.completed;
      every_step =
          λ s n o. (inv.engine.covered b.instance_id b.loaded b.found).finished b.completed s n o;
    }
