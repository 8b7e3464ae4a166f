-- ===== src/Budget/Absorption.antt =====
-- packages/core/src/budget/absorption.ts: the five absorption handlers.
use fun_makers_system.Base.{ℕ, Option, none, some, ◌==◌, find}
use fun_makers_system.Base.Int.{ℤ}
use fun_makers_system.Data.Audit.{
  AuditAction, AuditEntry, system, absorb_po_commitment, reverse_po_commitment,
  absorb_supplier_invoice_actual, absorb_expense_actual, absorb_credit_note_reversal,
}
use fun_makers_system.Data.Budget.{
  BudgetLine, PurchaseOrder, SupplierInvoice, Expense, CreditNote, ReasonCode, no_category,
  internal_error, warning, critical, purchase_order, supplier_invoice, expense, credit_note,
  po_commitment, po_reversal, si_actual, expense_actual, cn_reversal, BudgetTables,
}
use fun_makers_system.Data.Errors.{record_not_found}
use fun_makers_system.Effects.{Action, ◌>>=◌, ◌>>◌, pure, or_throw, try_catch, query, command}
use fun_makers_system.Audit.{audit_log}
use fun_makers_system.Budget.Lines.{
  Source, add_committed, add_actual, sub_actual, update_line, record_absorption_exception,
  release_commitment_bounded, Resolved, resolved, unresolved, resolve_budget_line,
}

-- `AbsorptionResult`, without its message; `recording_failed` is the exception id that stands for no row.
pub data ExceptionId : Type 0 where
  recorded : ℕ → ExceptionId
  recording_failed : ExceptionId

pub data AbsorptionResult : Type 0 where
  absorbed : ℕ → ℤ → AbsorptionResult
  not_absorbed : ExceptionId → ReasonCode → AbsorptionResult

-- The exception that a missing mapping leaves, and the result.
unfoldable pub refuse : Source → ReasonCode → Action AbsorptionResult
refuse s reason = do
  id ← record_absorption_exception s reason warning
  pure (not_absorbed (recorded id) reason)

unfoldable pub record_crash : Source → Action AbsorptionResult
record_crash s = do
  id ← record_absorption_exception s internal_error critical
  pure (not_absorbed (recorded id) internal_error)

-- The two nested `catch` clauses that all handlers end with.
unfoldable pub guarded : Source → Action AbsorptionResult → Action AbsorptionResult
guarded s m =
    try_catch m
      (λ e. try_catch (record_crash s) (λ x. pure (not_absorbed recording_failed internal_error)))

-- `absorb` on the line of the category; without a category or a line, an exception.
unfoldable pub on_line :
    Source → (BudgetLine → Action AbsorptionResult) → Resolved → Action AbsorptionResult
on_line s absorb (resolved line) = absorb line
on_line s absorb (unresolved reason) = refuse s reason

unfoldable pub on_category :
    Source → Option ℕ → (BudgetLine → Action AbsorptionResult) → Action AbsorptionResult
on_category s none absorb = refuse s no_category
on_category s (some category_id) absorb = do
  r ← resolve_budget_line s.project_id category_id
  on_line s absorb r

abbrev pub absorption_entry : AuditAction → Source → ℕ → ℕ → AuditEntry
absorption_entry action s actor line_id = record {
  actor_user_id = some actor;
  actor_source = system;
  action = action;
  resource_id = line_id;
  project_id = some s.project_id;
  org_id = none;
  reason = none;
}

-- An update of the line and the audit row: two calls, in no transaction.
unfoldable pub change_line :
    (BudgetLine → BudgetLine) → ℤ → AuditAction → Source → ℕ → BudgetLine → Action AbsorptionResult
change_line f amount action s actor line = do
  command (update_line line.id f)
  audit_log (absorption_entry action s actor line.id)
  pure (absorbed line.id amount)

abbrev pub find_po : ℕ → BudgetTables → Option PurchaseOrder
find_po id b = find (λ p. p.id == id) b.purchase_orders

abbrev pub po_source : ℕ → ℕ → Source
po_source project_id po_id = record {
  project_id = project_id;
  record_type = purchase_order;
  record_id = po_id;
  absorption_type = po_commitment;
}

-- `absorbPoCommitment`
unfoldable pub absorb_po : Source → ℕ → Action AbsorptionResult
absorb_po s actor = do
  found ← query (λ d. find_po s.record_id d.budget)
  po ← or_throw found record_not_found
  on_category s po.category_id
      (change_line (add_committed po.total_amount) po.total_amount absorb_po_commitment s actor)

unfoldable pub absorb_po_commitment_handler : ℕ → ℕ → ℕ → Action AbsorptionResult
absorb_po_commitment_handler project_id po_id actor =
    let s = po_source project_id po_id in guarded s (absorb_po s actor)

unfoldable pub release_line : ℤ → Source → ℕ → BudgetLine → Action AbsorptionResult
release_line amount s actor line = do
  released ← release_commitment_bounded line.id amount
  audit_log (absorption_entry reverse_po_commitment s actor line.id)
  pure (absorbed line.id released)

unfoldable pub reverse_po : Source → ℕ → Action AbsorptionResult
reverse_po s actor = do
  found ← query (λ d. find_po s.record_id d.budget)
  po ← or_throw found record_not_found
  on_category s po.category_id (release_line po.total_amount s actor)

-- `reversePoCommitment`
unfoldable pub reverse_po_commitment_handler : ℕ → ℕ → ℕ → Action AbsorptionResult
reverse_po_commitment_handler project_id po_id actor =
    let s = record (po_source project_id po_id) { absorption_type = po_reversal } in
    guarded s (reverse_po s actor)

-- `x ?? y`
abbrev pub or_else_option : Option ℕ → Option ℕ → Option ℕ
or_else_option (some a) b = some a
or_else_option none b = b

abbrev pub po_category : Option PurchaseOrder → Option ℕ
po_category none = none
po_category (some p) = p.category_id

abbrev pub linked_po : Option ℕ → BudgetTables → Option PurchaseOrder
linked_po none b = none
linked_po (some id) b = find_po id b

abbrev pub find_si : ℕ → BudgetTables → Option SupplierInvoice
find_si id b = find (λ x. x.id == id) b.supplier_invoices

-- The invoice with the category of its order, read in one query.
abbrev pub with_po : BudgetTables → Option SupplierInvoice → Option (SupplierInvoice × Option ℕ)
with_po b none = none
with_po b (some x) = some (x, po_category (linked_po x.purchase_order_id b))

unfoldable pub relieve_resolved : ℤ → Resolved → Action (Unit {0})
relieve_resolved amount (resolved line) = do release_commitment_bounded line.id amount; pure tt
relieve_resolved amount (unresolved reason) = pure tt

-- The release of the commitment on the line of the order's category, if it has one.
unfoldable pub relieve : ℕ → ℤ → Option ℕ → Action (Unit {0})
relieve project_id amount none = pure tt
relieve project_id amount (some category_id) = do
  r ← resolve_budget_line project_id category_id
  relieve_resolved amount r

unfoldable pub invoice_line : ℤ → Option ℕ → Source → ℕ → BudgetLine → Action AbsorptionResult
invoice_line amount po_category_id s actor line = do
  command (update_line line.id (add_actual amount))
  relieve s.project_id amount po_category_id
  audit_log (absorption_entry absorb_supplier_invoice_actual s actor line.id)
  pure (absorbed line.id amount)

unfoldable pub absorb_si : Source → ℕ → Action AbsorptionResult
absorb_si s actor = do
  found ← query (λ d. with_po d.budget (find_si s.record_id d.budget))
  (si, po_category_id) ← or_throw found record_not_found
  on_category s (or_else_option si.category_id po_category_id)
      (invoice_line si.total_amount po_category_id s actor)

-- `absorbSupplierInvoiceActual`
unfoldable pub absorb_supplier_invoice_handler : ℕ → ℕ → ℕ → Action AbsorptionResult
absorb_supplier_invoice_handler project_id si_id actor =
    let s : Source = record {
      project_id = project_id;
      record_type = supplier_invoice;
      record_id = si_id;
      absorption_type = si_actual;
    } in
    guarded s (absorb_si s actor)

abbrev pub find_expense : ℕ → BudgetTables → Option Expense
find_expense id b = find (λ x. x.id == id) b.expenses

unfoldable pub absorb_expense : Source → ℕ → Action AbsorptionResult
absorb_expense s actor = do
  found ← query (λ d. find_expense s.record_id d.budget)
  e ← or_throw found record_not_found
  on_category s e.category_id
      (change_line (add_actual e.amount) e.amount absorb_expense_actual s actor)

-- `absorbExpenseActual`
unfoldable pub absorb_expense_handler : ℕ → ℕ → ℕ → Action AbsorptionResult
absorb_expense_handler project_id expense_id actor =
    let s : Source = record {
      project_id = project_id;
      record_type = expense;
      record_id = expense_id;
      absorption_type = expense_actual;
    } in
    guarded s (absorb_expense s actor)

abbrev pub find_credit_note : ℕ → BudgetTables → Option CreditNote
find_credit_note id b = find (λ x. x.id == id) b.credit_notes

abbrev pub linked_si : Option ℕ → BudgetTables → Option SupplierInvoice
linked_si none b = none
linked_si (some id) b = find_si id b

abbrev pub si_category : BudgetTables → Option SupplierInvoice → Option ℕ
si_category b none = none
si_category b (some x) =
    or_else_option x.category_id (po_category (linked_po x.purchase_order_id b))

-- The category of a credit note: its invoice's, that of the invoice's order, or its order's.
abbrev pub credit_note_category : BudgetTables → CreditNote → Option ℕ
credit_note_category b n =
    or_else_option (si_category b (linked_si n.supplier_invoice_id b))
      (po_category (linked_po n.purchase_order_id b))

abbrev pub with_category : BudgetTables → Option CreditNote → Option (CreditNote × Option ℕ)
with_category b none = none
with_category b (some n) = some (n, credit_note_category b n)

unfoldable pub absorb_credit_note : Source → ℕ → Action AbsorptionResult
absorb_credit_note s actor = do
  found ← query (λ d. with_category d.budget (find_credit_note s.record_id d.budget))
  (n, category_id) ← or_throw found record_not_found
  on_category s category_id
      (change_line (sub_actual n.amount) n.amount absorb_credit_note_reversal s actor)

-- `absorbCreditNoteReversal`
unfoldable pub absorb_credit_note_handler : ℕ → ℕ → ℕ → Action AbsorptionResult
absorb_credit_note_handler project_id credit_note_id actor =
    let s : Source = record {
      project_id = project_id;
      record_type = credit_note;
      record_id = credit_note_id;
      absorption_type = cn_reversal;
    } in
    guarded s (absorb_credit_note s actor)
