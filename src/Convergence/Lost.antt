-- ===== src/Convergence/Lost.antt =====
-- What a failure after the status write costs: the purchase order.
use fun_makers_system.Base.{ℕ, suc, ◌≡◌, false, some}
use fun_makers_system.Data.Records.{RecordType, RecordStatus, RecordRow, RecordTables}
use fun_makers_system.Data.Workflow.{WorkflowEvent, WorkflowTables}
use fun_makers_system.Effects.{World, pure}
use fun_makers_system.Effects.Keeps.{Keeps, bind-Keeps}
use fun_makers_system.Posting.Registry.{Registry}
use fun_makers_system.Posting.Service.{post}
use fun_makers_system.Budget.Absorption.{absorb_po_commitment_handler}
use fun_makers_system.Convergence.{
  find_row, record_post, post_record, po_committed, procurement_service,
}
use fun_makers_system.Convergence.Procurement.{absorb_and_post_po, handle_po_approved}
use fun_makers_system.Convergence.Apart.{Standing}
use fun_makers_system.Convergence.Apart.Handlers.{absorb_po-Standing}
use fun_makers_system.Convergence.Apart.Postings.{post-Standing}
use fun_makers_system.Convergence.Redelivery.{redelivered}

po_rest-Standing :
    (reg : Registry) (actor : ℕ) (R : RecordTables) (W : WorkflowTables) (r : RecordRow)
    → Keeps (Standing R W) (absorb_and_post_po reg actor r)
unfolding absorb_and_post_po post_record
po_rest-Standing reg actor R W r =
    let i = record_post po_committed procurement_service r actor in
    bind-Keeps (Standing R W) (absorb_po_commitment_handler r.project_id r.id actor)
      (λ x. post_record reg po_committed procurement_service r actor)
      (absorb_po-Standing R W r.project_id r.id actor)
      (λ x.
        bind-Keeps (Standing R W) (post reg i) (λ y. pure tt) (post-Standing R W reg i)
          (λ y w h. h))

-- The delivery of an approval of a purchase order that is there, in which the lookup and the status write
-- succeed, is the last that has an effect: a second delivery leaves the database as it is, even where
-- the audit row, the budget absorption or the posting of the first one failed.
pub handle_po_approved_once :
    (reg : Registry) (e : WorkflowEvent) (w : World) (r : RecordRow)
    → find_row RecordType.purchase_order e.record_id w.db.records.rows ≡ some r
    → w.env.fails w.tick ≡ false
    → w.env.fails (suc w.tick) ≡ false
    → let v = (handle_po_approved reg e w).1 in (handle_po_approved reg e v).1.db ≡ v.db
unfolding handle_po_approved
handle_po_approved_once reg e w r f a b =
    redelivered RecordType.purchase_order RecordStatus.approved
      (absorb_and_post_po reg e.actor_user_id) e
      (λ R W r. po_rest-Standing reg e.actor_user_id R W r) w r f a b
