-- ===== src/Convergence/Apart.antt =====
-- What follows a status: absorptions, postings and audit rows. None of them touches a record or the
-- tables of the workflow engine.
pub mod Handlers
pub mod Postings
use fun_makers_system.Base.{ℕ, ◌≡◌, Option, none, some, arith, Option-cases, inl, inr}
use fun_makers_system.Base.Int.{ℤ}
use fun_makers_system.Data.Audit.{
  AuditEntry, AuditAction, absorb_po_commitment, reverse_po_commitment,
  absorb_supplier_invoice_actual, absorb_expense_actual, absorb_credit_note_reversal,
}
use fun_makers_system.Data.Budget.{
  BudgetLine, ReasonCode, Severity, warning, critical, internal_error, no_category,
  supplier_invoice, expense, credit_note, po_reversal, si_actual, expense_actual, cn_reversal,
}
use fun_makers_system.Data.Errors.{record_not_found}
use fun_makers_system.Data.Records.{RecordTables}
use fun_makers_system.Data.Workflow.{WorkflowTables}
use fun_makers_system.Effects.{
  World, Db, Action, ◌>>=◌, ◌>>◌, pure, try_catch, query, command, create, or_throw, transaction,
}
use fun_makers_system.Effects.Laws.{Reads}
use fun_makers_system.Effects.Keeps.{
  Keeps, Reads-Keeps, bind-Keeps, try_catch-Keeps, command-Keeps, query_bind-Keeps,
  read_or_fail-Keeps, transaction-Keeps,
}
use fun_makers_system.Audit.{audit_log}
use fun_makers_system.Org.{resolve_project_org_id}
use fun_makers_system.Budget.Lines.{
  update_line, Source, record_absorption_exception, Resolved, resolved, unresolved,
  resolve_budget_line, release_in_tx, release_commitment_bounded, add_actual, add_committed,
  sub_actual,
}
use fun_makers_system.Budget.Absorption.{
  AbsorptionResult, absorbed, not_absorbed, recorded, recording_failed, refuse, record_crash,
  guarded, on_line, on_category, change_line, absorption_entry, release_line, relieve,
  relieve_resolved, invoice_line,
}
use fun_makers_system.Posting.Registry.{
  Registry, Parsed, validate_payload, unknown_type, invalid, parsed,
}
use fun_makers_system.Posting.Ledger.{find_by_key}
use fun_makers_system.Posting.Service.Effect.{resolve_org-Reads}
use fun_makers_system.Posting.Service.{
  PostInput, post, post_parsed, record_failure, write_posted, existing_or_new,
}
use fun_makers_system.Budget.Sound.{resolve_budget_line-Reads}

-- The records and the workflow tables are those given.
abbrev pub Standing : RecordTables → WorkflowTables → Db → Type 0
Standing R W d = (d.records ≡ R) × (d.workflow ≡ W)

module _ (R : RecordTables) (W : WorkflowTables) where
  pub audit_log-Standing : (e : AuditEntry) → Keeps (Standing R W) (audit_log e)
  unfolding audit_log
  audit_log-Standing e w h = ground arith

  update_line-Standing :
      (id : ℕ) (f : BudgetLine → BudgetLine) → Keeps (Standing R W) (command (update_line id f))
  update_line-Standing id f w h = ground arith

  record_absorption_exception-Standing :
      (s : Source) (r : ReasonCode) (v : Severity)
      → Keeps (Standing R W) (record_absorption_exception s r v)
  unfolding record_absorption_exception resolve_project_org_id
  record_absorption_exception-Standing s r v w h = ground arith

  release_commitment_bounded-Standing :
      (id : ℕ) (amount : ℤ) → Keeps (Standing R W) (release_commitment_bounded id amount)
  unfolding release_commitment_bounded release_in_tx
  release_commitment_bounded-Standing id amount w h = ground arith

  refuse-Standing : (s : Source) (r : ReasonCode) → Keeps (Standing R W) (refuse s r)
  unfolding refuse
  refuse-Standing s r w h = ground (arith, record_absorption_exception-Standing s r warning w h)

  record_crash-Standing : (s : Source) → Keeps (Standing R W) (record_crash s)
  unfolding record_crash
  record_crash-Standing s w h =
      ground (arith, record_absorption_exception-Standing s internal_error critical w h)

  pub guarded-Standing :
      (s : Source) (m : Action AbsorptionResult)
      → Keeps (Standing R W) m
      → Keeps (Standing R W) (guarded s m)
  unfolding guarded
  guarded-Standing s m hm =
      try_catch-Keeps (Standing R W) m
        (λ e. try_catch (record_crash s) (λ x. pure (not_absorbed recording_failed internal_error)))
        hm
        (λ e.
          try_catch-Keeps (Standing R W) (record_crash s)
            (λ x. pure (not_absorbed recording_failed internal_error)) (record_crash-Standing s)
            (λ x w h. h))

  pub on_category-Standing :
      (s : Source) (o : Option ℕ) (absorb : BudgetLine → Action AbsorptionResult)
      → ((l : BudgetLine) → Keeps (Standing R W) (absorb l))
      → Keeps (Standing R W) (on_category s o absorb)
  unfolding on_category on_line
  on_category-Standing s none absorb h = refuse-Standing s no_category
  on_category-Standing s (some c) absorb h =
      bind-Keeps (Standing R W) (resolve_budget_line s.project_id c) (λ r. on_line s absorb r)
        (Reads-Keeps (Standing R W) (resolve_budget_line s.project_id c)
          (resolve_budget_line-Reads s.project_id c))
        (λ r. elim r as (λ r. Keeps (Standing R W) (on_line s absorb r)) [
          | resolved l ↦ h l
          | unresolved reason ↦ refuse-Standing s reason
        ])

  pub change_line-Standing :
      (f : BudgetLine → BudgetLine) (a : ℤ) (k : AuditAction) (s : Source) (actor : ℕ)
      (l : BudgetLine)
      → Keeps (Standing R W) (change_line f a k s actor l)
  unfolding change_line audit_log
  change_line-Standing f a k s actor l w h = ground arith

  pub release_line-Standing :
      (amount : ℤ) (s : Source) (actor : ℕ) (l : BudgetLine)
      → Keeps (Standing R W) (release_line amount s actor l)
  unfolding release_line audit_log
  release_line-Standing amount s actor l w h =
      ground (arith, release_commitment_bounded-Standing l.id amount w h)

  relieve-Standing : (p : ℕ) (amount : ℤ) (o : Option ℕ) → Keeps (Standing R W) (relieve p amount o)
  unfolding relieve relieve_resolved
  relieve-Standing p amount none = λ w h. h
  relieve-Standing p amount (some c) =
      bind-Keeps (Standing R W) (resolve_budget_line p c) (λ r. relieve_resolved amount r)
        (Reads-Keeps (Standing R W) (resolve_budget_line p c) (resolve_budget_line-Reads p c))
        (λ r. elim r as (λ r. Keeps (Standing R W) (relieve_resolved amount r)) [
          | resolved l ↦ λ w h. ground (arith, release_commitment_bounded-Standing l.id amount w h)
          | unresolved reason ↦ λ w h. h
        ])

  pub invoice_line-Standing :
      (amount : ℤ) (o : Option ℕ) (s : Source) (actor : ℕ) (l : BudgetLine)
      → Keeps (Standing R W) (invoice_line amount o s actor l)
  unfolding invoice_line
  invoice_line-Standing amount o s actor l =
      let e = absorption_entry absorb_supplier_invoice_actual s actor l.id in
      bind-Keeps (Standing R W) (command (update_line l.id (add_actual amount)))
        (λ x. relieve s.project_id amount o >> (audit_log e >> pure (absorbed l.id amount)))
        (update_line-Standing l.id (add_actual amount))
        (λ x.
          bind-Keeps (Standing R W) (relieve s.project_id amount o)
            (λ y. audit_log e >> pure (absorbed l.id amount))
            (relieve-Standing s.project_id amount o)
            (λ y w h. ground (arith, audit_log-Standing e w h)))
