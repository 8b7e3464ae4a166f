-- ===== src/Data/Budget.antt =====
-- Budgets, their lines, and the procurement records that budget absorption reads.
use fun_makers_system.Base.{ℕ, Option, List}
use fun_makers_system.Base.Int.{ℤ}

pub record ProjectBudget : Type 0 where
  pub id : ℕ
  pub project_id : ℕ

-- A `ProcurementCategory` or a `BudgetCategory`.
pub record Category : Type 0 where
  pub id : ℕ
  pub code : ℕ

-- Amounts are in hundredths.
pub record BudgetLine : Type 0 where
  pub id : ℕ
  pub budget_id : ℕ
  pub category_id : ℕ
  pub committed_amount : ℤ
  pub actual_amount : ℤ

pub record PurchaseOrder : Type 0 where
  pub id : ℕ
  pub category_id : Option ℕ
  pub total_amount : ℤ

pub record SupplierInvoice : Type 0 where
  pub id : ℕ
  pub category_id : Option ℕ
  pub total_amount : ℤ
  pub purchase_order_id : Option ℕ

pub record Expense : Type 0 where
  pub id : ℕ
  pub category_id : Option ℕ
  pub amount : ℤ

pub record CreditNote : Type 0 where
  pub id : ℕ
  pub amount : ℤ
  pub supplier_invoice_id : Option ℕ
  pub purchase_order_id : Option ℕ

pub data SourceRecordType : Type 0 where
  purchase_order supplier_invoice expense credit_note : SourceRecordType

pub data AbsorptionType : Type 0 where
  po_commitment po_reversal si_actual expense_actual cn_reversal : AbsorptionType

pub data ReasonCode : Type 0 where
  no_category no_budget no_procurement_category no_budget_category : ReasonCode
  no_budget_line internal_error : ReasonCode

pub data Severity : Type 0 where
  warning critical : Severity

-- Without the module, the message and the status, which every handler sets to the same literal or
-- derives from the rest.
pub record BudgetAbsorptionException : Type 0 where
  pub id : ℕ
  pub org_id : ℕ
  pub project_id : ℕ
  pub source_record_type : SourceRecordType
  pub source_record_id : ℕ
  pub absorption_type : AbsorptionType
  pub reason_code : ReasonCode
  pub severity : Severity

pub record BudgetTables : Type 0 where
  pub budgets : List ProjectBudget
  pub lines : List BudgetLine
  pub procurement_categories : List Category
  pub budget_categories : List Category
  pub purchase_orders : List PurchaseOrder
  pub supplier_invoices : List SupplierInvoice
  pub expenses : List Expense
  pub credit_notes : List CreditNote
  pub absorption_exceptions : List BudgetAbsorptionException
