-- ===== src/System/Rfq.antt =====
-- The transitions of a request for quotation keep the invariant of the system.
use fun_makers_system.Base.{ℕ, ◌≡◌, refl, Bool, true, false, not, Option, none, some, arith, ◌==◌}
use fun_makers_system.Data.Errors.{
  Error, record_not_found, quotation_of_other_rfq, quotation_not_shortlisted,
}
use fun_makers_system.Data.Records.{RecordType, RecordStatus, RecordRow, type_code, same_status}
use fun_makers_system.Effects.{
  World, Db, Action, ◌>>=◌, ◌>>◌, pure, throw_if, query, command, transaction,
}
use fun_makers_system.Effects.Laws.{query-Reads}
use fun_makers_system.Effects.Keeps.{
  Keeps, Reads-Keeps, Reads-bind-Keeps, bind-Keeps, bind_at, try_catch-Keeps, command-Keeps,
  transaction-Keeps, read_or_fail-Keeps,
}
use fun_makers_system.Audit.{audit_log}
use fun_makers_system.Workflow.Instances.{start_instance}
use fun_makers_system.Workflow.Resolution.{TemplateCodes, Resolution, resolve_template}
use fun_makers_system.Convergence.{set_status}
use fun_makers_system.Convergence.Redelivery.{same_status_eq}
use fun_makers_system.Transitions.{
  TransitionInput, check_transition, write_transition, transition_entry, start_params, when,
}
use fun_makers_system.Transitions.Tables.{rfq_machine}
use fun_makers_system.Transitions.Rfq.{
  find_quotation, is_shortlisted, award_quotation, reject_siblings, write_award, award_rfq,
  issue_rfq, skip_known, start_unsourced, start_rfq_workflow, is_known, move_plainly, award_or_move,
  issue_or_move, transition_rfq,
}
use fun_makers_system.System.{is_past_approval, Backing}
use fun_makers_system.System.Backed.{Held, write-Held}
use fun_makers_system.System.Handlers.{audit_log-Held}
use fun_makers_system.System.Invariant.{
  SystemInv, Held-SystemInv, SystemInv-Held, start_instance-SystemInv,
}
use fun_makers_system.System.Checked.{Guarded, check_transition-Reads, check_transition-Checked}
use fun_makers_system.System.Writes.{
  target-Backing, write_transition-Held, resolve_template-Reads, when-Keeps,
}

rfq_machine-Guarded : Guarded rfq_machine
rfq_machine-Guarded a s t e u h p = ground arith

throw_if-Keeps : (P : Db → Type 0) (b : Bool) (e : Error) → Keeps P (throw_if b e)
throw_if-Keeps P true e w h = h
throw_if-Keeps P false e w h = h

module _ (base : Db) (p : TransitionInput) (r : RecordRow) where
  log-Held : Keeps (Held base) (audit_log (transition_entry RecordType.rfq p r) >> pure tt)
  log-Held =
      bind-Keeps (Held base) (audit_log (transition_entry RecordType.rfq p r)) (λ x. pure tt)
        (audit_log-Held base (transition_entry RecordType.rfq p r)) (λ x w h. h)

  issue_rfq-Held :
      (is_past_approval RecordType.rfq RecordStatus.issued ≡ true
        → Backing RecordType.rfq p.id base)
      → Keeps (Held base) (issue_rfq p r)
  unfolding issue_rfq
  issue_rfq-Held b =
      let write = command (set_status RecordType.rfq p.id RecordStatus.issued) in
      let m : Action (Unit {0}) = query (λ d. tt) >> write in
      bind-Keeps (Held base) (transaction m)
        (λ x. audit_log (transition_entry RecordType.rfq p r) >> pure tt)
        (transaction-Keeps (Held base) m (
          bind-Keeps (Held base) (query (λ d. tt)) (λ x. write)
            (Reads-Keeps (Held base) (query (λ d. tt)) (query-Reads (λ d. tt)))
            (λ x. write-Held base RecordType.rfq p.id RecordStatus.issued b)))
        (λ x. log-Held)

  award_quotation-Held : (id : ℕ) → Keeps (Held base) (command (award_quotation id))
  award_quotation-Held id = command-Keeps (Held base) (award_quotation id) (λ d d' h e. record {
    same_workflow = ground (arith, h.same_workflow);
    backed = ground (arith, h.backed);
  })

  reject_siblings-Held : (rfq_id id : ℕ) → Keeps (Held base) (command (reject_siblings rfq_id id))
  reject_siblings-Held rfq_id id =
      command-Keeps (Held base) (reject_siblings rfq_id id) (λ d d' h e. record {
        same_workflow = ground (arith, h.same_workflow);
        backed = ground (arith, h.backed);
      })

  module _
      (b : is_past_approval RecordType.rfq RecordStatus.awarded ≡ true
        → Backing RecordType.rfq p.id base) where
    write_award-Held : (id : ℕ) → Keeps (Held base) (write_award p.id id)
    unfolding write_award
    write_award-Held id =
        let write = command (set_status RecordType.rfq p.id RecordStatus.awarded) in
        bind-Keeps (Held base) (command (award_quotation id))
          (λ x. command (reject_siblings p.id id) >> write) (award_quotation-Held id)
          (λ x.
            bind-Keeps (Held base) (command (reject_siblings p.id id)) (λ y. write)
              (reject_siblings-Held p.id id)
              (λ y. write-Held base RecordType.rfq p.id RecordStatus.awarded b))

    award_rfq-Held : (o : Option ℕ) → Keeps (Held base) (award_rfq p o r)
    unfolding award_rfq
    award_rfq-Held none = λ w h. h
    award_rfq-Held (some id) =
        let log : Action (Unit {0}) = audit_log (transition_entry RecordType.rfq p r) >> pure tt in
        let award : Action (Unit {0}) = transaction (write_award p.id id) >> log in
        read_or_fail-Keeps (Held base) (λ d. find_quotation id d.records.quotations)
          record_not_found
          (λ q.
            throw_if (not (q.rfq_id == p.id)) quotation_of_other_rfq
            >> (throw_if (not (is_shortlisted q.status)) quotation_not_shortlisted >> award))
          (λ v h q y.
            bind-Keeps (Held base) (throw_if (not (q.rfq_id == p.id)) quotation_of_other_rfq)
              (λ x. throw_if (not (is_shortlisted q.status)) quotation_not_shortlisted >> award)
              (throw_if-Keeps (Held base) (not (q.rfq_id == p.id)) quotation_of_other_rfq)
              (λ x.
                bind-Keeps (Held base)
                  (throw_if (not (is_shortlisted q.status)) quotation_not_shortlisted) (λ z. award)
                  (throw_if-Keeps (Held base) (not (is_shortlisted q.status))
                    quotation_not_shortlisted)
                  (λ z.
                    bind-Keeps (Held base) (transaction (write_award p.id id)) (λ u. log)
                      (transaction-Keeps (Held base) (write_award p.id id) (write_award-Held id))
                      (λ u. log-Held)))
              v h)

start_unsourced-Keeps :
    (r : RecordRow) (actor : ℕ) (found : Option Resolution)
    → Keeps SystemInv (start_unsourced r actor found)
unfolding start_unsourced
start_unsourced-Keeps r actor none = λ w h. h
start_unsourced-Keeps r actor (some found) =
    let q = record (start_params r actor found) { resolution_source = none } in
    bind-Keeps SystemInv (start_instance q) (λ l. pure tt) (start_instance-SystemInv q) (λ l w h. h)

skip_known-Keeps : (e : Error) → Keeps SystemInv (skip_known e)
skip_known-Keeps e = throw_if-Keeps SystemInv (not (is_known e)) e

start_rfq_workflow-Keeps :
    (codes : TemplateCodes) (r : RecordRow) (actor : ℕ)
    → Keeps SystemInv (start_rfq_workflow codes r actor)
unfolding start_rfq_workflow
start_rfq_workflow-Keeps codes r actor =
    let m = resolve_template codes (type_code r.kind) r.project_id none in
    try_catch-Keeps SystemInv (m >>= start_unsourced r actor) skip_known
      (bind-Keeps SystemInv m (start_unsourced r actor)
        (Reads-Keeps SystemInv m
          (resolve_template-Reads codes (type_code r.kind) r.project_id none))
        (start_unsourced-Keeps r actor))
      skip_known-Keeps

module _ (codes : TemplateCodes) (p : TransitionInput) (o : Option ℕ) (r : RecordRow)
    (t : RecordStatus) (v : World) (h : SystemInv v.db)
    (b : is_past_approval RecordType.rfq t ≡ true → Backing RecordType.rfq p.id v.db) where
  plain-SystemInv : SystemInv (move_plainly codes p r t v).1.db
  unfolding move_plainly
  plain-SystemInv =
      let start = start_rfq_workflow codes r p.actor_user_id in
      bind_at SystemInv (write_transition RecordType.rfq p r t)
        (λ x. when (same_status t RecordStatus.under_review) start) v
        (Held-SystemInv v.db (write_transition RecordType.rfq p r t v).1.db h.engine
          (write_transition-Held v.db RecordType.rfq p r t b v (SystemInv-Held v.db h)))
        (λ x.
          when-Keeps (same_status t RecordStatus.under_review) start
            (λ y. start_rfq_workflow-Keeps codes r p.actor_user_id))

  award-SystemInv :
      (c : Bool)
      → (c ≡ true → t ≡ RecordStatus.awarded)
      → SystemInv (award_or_move c codes p o r t v).1.db
  unfolding award_or_move
  award-SystemInv true e =
      Held-SystemInv v.db (award_rfq p o r v).1.db h.engine
        (award_rfq-Held v.db p r (λ q. b (rw (e refl) q)) o v (SystemInv-Held v.db h))
  award-SystemInv false e = plain-SystemInv

  issue-SystemInv :
      (c : Bool)
      → (c ≡ true → t ≡ RecordStatus.issued)
      → SystemInv (issue_or_move c codes p o r t v).1.db
  unfolding issue_or_move
  issue-SystemInv true e =
      Held-SystemInv v.db (issue_rfq p r v).1.db h.engine
        (issue_rfq-Held v.db p r (λ q. b (rw (e refl) q)) v (SystemInv-Held v.db h))
  issue-SystemInv false e =
      award-SystemInv (same_status t RecordStatus.awarded) (same_status_eq t RecordStatus.awarded)

pub rfq-Keeps :
    (codes : TemplateCodes) (p : TransitionInput) (o : Option ℕ)
    → Keeps SystemInv (transition_rfq codes p o)
unfolding transition_rfq
rfq-Keeps codes p o =
    Reads-bind-Keeps SystemInv (check_transition rfq_machine p)
      (λ (r, t). issue_or_move (same_status t RecordStatus.issued) codes p o r t)
      (check_transition-Reads rfq_machine p)
      (λ w h (r, t) e v s.
        let c = check_transition-Checked rfq_machine p w r t e in
        let b = target-Backing rfq_machine rfq_machine-Guarded p w r t c h in
        issue-SystemInv codes p o r t v (rw s h) (rw s b) (same_status t RecordStatus.issued)
          (same_status_eq t RecordStatus.issued))
