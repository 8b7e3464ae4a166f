-- ===== src/System/ByHand.antt =====
-- A vendor contract is approved by hand, with no workflow.
use fun_makers_system.Base.{ℕ, suc, ◌≡◌, false, some, arith, ap, sym}
use mathlib.Core.Path.{subst}
use fun_makers_system.Data.Records.{RecordType, RecordStatus, RecordAction, RecordRow, RecordTables}
use fun_makers_system.Data.Workflow.{WorkflowTables}
use fun_makers_system.Effects.{World, Action, Outcome, ok, ◌>>=◌, ◌>>◌, advance}
use fun_makers_system.Effects.Keeps.{Keeps}
use fun_makers_system.Posting.Registry.{Registry}
use fun_makers_system.Convergence.{find_row}
use fun_makers_system.Convergence.Apart.{Standing}
use fun_makers_system.Convergence.Redelivery.{HasStatus, write_and_log}
use fun_makers_system.Transitions.{
  TransitionInput, check_transition, check_row, assert_project_scope, write_transition,
  transition_entry,
}
use fun_makers_system.Transitions.Tables.{vendor_contract_machine}
use fun_makers_system.Transitions.Services.{transition_vendor_contract, after_vendor_contract}

passes :
    (p : TransitionInput) (w : World) (r : RecordRow)
    → find_row RecordType.vendor_contract p.id w.db.records.rows ≡ some r
    → r.status ≡ RecordStatus.under_review
    → r.project_id ≡ p.project_id
    → p.action ≡ RecordAction.approve
    → w.env.fails w.tick ≡ false
    → check_transition vendor_contract_machine p w
      ≡ (ok (r, RecordStatus.approved_internal), advance w)
unfolding check_transition check_row assert_project_scope
passes p w r f s q a n = ground arith

-- What follows a computation that is known.
then_run :
    {A B : Type 0} (m : Action A) (f : A → Action B) (w v : World) (a : A)
    → m w ≡ (ok a, v)
    → (m >>= f) w ≡ f a v
then_run {A} {B} m f w v a e = ap (λ (x : Outcome A × World). ◌>>=◌ (λ u. x) f w) e

rest-Standing :
    (reg : Registry) (r : RecordRow) (actor : ℕ) (R : RecordTables) (W : WorkflowTables)
    → Keeps (Standing R W) (after_vendor_contract reg r RecordStatus.approved_internal actor)
unfolding after_vendor_contract
rest-Standing reg r actor R W w h = h

-- A vendor contract under review becomes approved by the manual action `approve`, where the lookup and
-- the status write succeed, and whatever else fails: nothing asks for a workflow instance.
pub vendor_contract_approved_by_hand :
    (reg : Registry) (p : TransitionInput) (w : World) (r : RecordRow)
    → find_row RecordType.vendor_contract p.id w.db.records.rows ≡ some r
    → r.status ≡ RecordStatus.under_review
    → r.project_id ≡ p.project_id
    → p.action ≡ RecordAction.approve
    → w.env.fails w.tick ≡ false
    → w.env.fails (suc w.tick) ≡ false
    → HasStatus RecordType.vendor_contract p.id RecordStatus.approved_internal
        (transition_vendor_contract reg p w).1.db
unfolding transition_vendor_contract write_transition
vendor_contract_approved_by_hand reg p w r f s q a n m =
    let after : RecordRow → RecordStatus → Action (Unit {0}) =
      λ r t. after_vendor_contract reg r t p.actor_user_id in
    let ran =
      then_run (check_transition vendor_contract_machine p)
        (λ (r, t). write_transition RecordType.vendor_contract p r t >> after r t) w (advance w)
        (r, RecordStatus.approved_internal) (passes p w r f s q a n) in
    subst
      (λ (x : Outcome (Unit {0}) × World).
        HasStatus RecordType.vendor_contract p.id RecordStatus.approved_internal x.1.db)
      (sym ran)
      (write_and_log RecordType.vendor_contract p.id RecordStatus.approved_internal (advance w) r
        (transition_entry RecordType.vendor_contract p r) (after r RecordStatus.approved_internal) f
        m (rest-Standing reg r p.actor_user_id))
