-- ===== src/Transitions/Rfq.antt =====
-- packages/core/src/procurement/rfq/service.ts: the transitions of a request for quotation. Reference
-- numbers and the column of the awarded quotation are left out.
use fun_makers_system.Base.{
  ℕ, Bool, true, false, not, Option, none, some, List, ◌==◌, if◌then◌else◌, find, update_where,
}
use fun_makers_system.Data.Errors.{
  Error, record_not_found, quotation_required, quotation_of_other_rfq, quotation_not_shortlisted,
  template_not_active, duplicate_instance,
}
use fun_makers_system.Data.Records.{
  RecordType, RecordStatus, RecordRow, Quotation, QuotationStatus, type_code, same_status,
}
use fun_makers_system.Effects.{
  Db, Action, ◌>>=◌, ◌>>◌, pure, throw, throw_if, or_throw, query, command, transaction, try_catch,
}
use fun_makers_system.Audit.{audit_log}
use fun_makers_system.Convergence.{set_status}
use fun_makers_system.Workflow.Instances.{start_instance}
use fun_makers_system.Workflow.Resolution.{TemplateCodes, Resolution, resolve_template}
use fun_makers_system.Transitions.{
  TransitionInput, check_transition, write_transition, transition_entry, start_params, when_status,
}
use fun_makers_system.Transitions.Tables.{rfq_machine}

abbrev pub find_quotation : ℕ → List Quotation → Option Quotation
find_quotation id = find (λ (q : Quotation). q.id == id)

abbrev pub is_shortlisted : QuotationStatus → Bool
is_shortlisted QuotationStatus.shortlisted = true
is_shortlisted _ = false

-- `QUOTATION_TERMINAL`
abbrev pub is_settled : QuotationStatus → Bool
is_settled QuotationStatus.awarded = true
is_settled QuotationStatus.rejected = true
is_settled QuotationStatus.expired = true
is_settled _ = false

abbrev pub with_quotations : Db → List Quotation → Db
with_quotations d qs = record d { records = record (d.records) { quotations = qs } }

abbrev pub to_quotation_status : QuotationStatus → Quotation → Quotation
to_quotation_status s q = record q { status = s }

abbrev pub award_quotation : ℕ → Db → Option Db
award_quotation id d = elim (find_quotation id d.records.quotations) [
  | none ↦ none
  | some _ ↦ some (
      with_quotations d (
        update_where (λ (q : Quotation). q.id == id) (to_quotation_status QuotationStatus.awarded)
          d.records.quotations))
]

-- The other quotations of the request that are still open.
abbrev pub is_open_sibling : ℕ → ℕ → Quotation → Bool
is_open_sibling rfq_id id q =
    if q.rfq_id == rfq_id then (if q.id == id then false else not (is_settled q.status)) else false

-- `updateMany`
abbrev pub reject_siblings : ℕ → ℕ → Db → Option Db
reject_siblings rfq_id id d = some (
    with_quotations d (
      update_where (is_open_sibling rfq_id id) (to_quotation_status QuotationStatus.rejected)
        d.records.quotations))

unfoldable pub write_award : ℕ → ℕ → Action (Unit {0})
write_award rfq_id quotation_id = do
  command (award_quotation quotation_id)
  command (reject_siblings rfq_id quotation_id)
  command (set_status RecordType.rfq rfq_id RecordStatus.awarded)

unfoldable pub award_rfq : TransitionInput → Option ℕ → RecordRow → Action (Unit {0})
award_rfq p none r = throw quotation_required
award_rfq p (some quotation_id) r = do
  found ← query (λ d. find_quotation quotation_id d.records.quotations)
  q ← or_throw found record_not_found
  throw_if (not (q.rfq_id == p.id)) quotation_of_other_rfq
  throw_if (not (is_shortlisted q.status)) quotation_not_shortlisted
  transaction (write_award p.id quotation_id)
  audit_log (transition_entry RecordType.rfq p r)
  pure tt

-- The transaction first reads the last reference number.
unfoldable pub issue_rfq : TransitionInput → RecordRow → Action (Unit {0})
issue_rfq p r = do
  transaction (query (λ d. tt) >> command (set_status RecordType.rfq p.id RecordStatus.issued))
  audit_log (transition_entry RecordType.rfq p r)
  pure tt

-- Two errors are logged, the others thrown again.
abbrev pub is_known : Error → Bool
is_known (template_not_active code) = true
is_known (duplicate_instance record_type id) = true
is_known e = false

abbrev pub skip_known : Error → Action (Unit {0})
skip_known e = throw_if (not (is_known e)) e

unfoldable pub start_unsourced : RecordRow → ℕ → Option Resolution → Action (Unit {0})
start_unsourced r actor none = pure tt
start_unsourced r actor (some found) = do
  l ← start_instance (record (start_params r actor found) { resolution_source = none })
  pure tt

unfoldable pub start_rfq_workflow : TemplateCodes → RecordRow → ℕ → Action (Unit {0})
start_rfq_workflow codes r actor =
    try_catch
      (resolve_template codes (type_code r.kind) r.project_id none >>= start_unsourced r actor)
      skip_known

unfoldable pub move_plainly :
    TemplateCodes → TransitionInput → RecordRow → RecordStatus → Action (Unit {0})
move_plainly codes p r target = do
  write_transition RecordType.rfq p r target
  when_status target RecordStatus.under_review (start_rfq_workflow codes r p.actor_user_id)

-- `if (newStatus === 'awarded')`
unfoldable pub award_or_move :
    Bool → TemplateCodes → TransitionInput → Option ℕ → RecordRow → RecordStatus → Action (Unit {0})
award_or_move true codes p quotation_id r target = award_rfq p quotation_id r
award_or_move false codes p quotation_id r target = move_plainly codes p r target

-- `if (newStatus === 'issued')`
unfoldable pub issue_or_move :
    Bool → TemplateCodes → TransitionInput → Option ℕ → RecordRow → RecordStatus → Action (Unit {0})
issue_or_move true codes p quotation_id r target = issue_rfq p r
issue_or_move false codes p quotation_id r target =
    award_or_move (same_status target RecordStatus.awarded) codes p quotation_id r target

-- `transitionRfq`, called with the project.
unfoldable pub transition_rfq : TemplateCodes → TransitionInput → Option ℕ → Action (Unit {0})
transition_rfq codes p quotation_id = do
  (r, target) ← check_transition rfq_machine p
  issue_or_move (same_status target RecordStatus.issued) codes p quotation_id r target
