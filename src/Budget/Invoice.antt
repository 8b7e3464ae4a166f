-- ===== src/Budget/Invoice.antt =====
-- What `absorbSupplierInvoiceActual` has done when it reports an absorption.
use fun_makers_system.Base.{ℕ, ◌≡◌, Option, some, [], ◌∷◌, ◌++◌, update_first}
use fun_makers_system.Base.Int.{ℤ}
use fun_makers_system.Data.Audit.{absorb_supplier_invoice_actual}
use fun_makers_system.Data.Budget.{BudgetLine, supplier_invoice, si_actual}
use fun_makers_system.Effects.{World}
use fun_makers_system.Audit.{audit_row}
use fun_makers_system.Budget.Lines.{Source, same_line, find_line, add_actual}
use fun_makers_system.Budget.Absorption.{absorption_entry}
use fun_makers_system.Budget.Relief.{Relieved}

-- The line's actual amount rises first, the order's commitment is relieved on what that leaves, and
-- the audit row comes last.
pub record InvoiceAbsorbed (s : Source) (actor : ℕ) (amount : ℤ) (o : Option ℕ) (id : ℕ)
    (w w' : World) : Type 0 where
  pub line : BudgetLine
  pub line_found : find_line id w.db.budget.lines ≡ some line
  pub charged : World
  pub charged_lines :
      charged.db.budget.lines ≡ update_first (same_line id) (add_actual amount) w.db.budget.lines
  pub relief : World
  pub relieved_by : Relieved s.project_id amount o charged relief
  pub lines_after : w'.db.budget.lines ≡ relief.db.budget.lines
  pub audit_after :
      w'.db.audit
      ≡ relief.db.audit
        ++ (audit_row (absorption_entry absorb_supplier_invoice_actual s actor id) ∷ [])

abbrev pub si_source : ℕ → ℕ → Source
si_source project_id si_id = record {
  project_id = project_id;
  record_type = supplier_invoice;
  record_id = si_id;
  absorption_type = si_actual;
}
