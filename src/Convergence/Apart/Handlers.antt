-- ===== src/Convergence/Apart/Handlers.antt =====
-- The budget handlers: an approval's absorption leaves the records and the workflow as they are.
use fun_makers_system.Base.{ℕ}
use fun_makers_system.Data.Audit.{
  absorb_po_commitment, absorb_expense_actual, absorb_credit_note_reversal,
}
use fun_makers_system.Data.Budget.{
  supplier_invoice, expense, credit_note, po_reversal, si_actual, expense_actual, cn_reversal,
}
use fun_makers_system.Data.Errors.{record_not_found}
use fun_makers_system.Data.Records.{RecordTables}
use fun_makers_system.Data.Workflow.{WorkflowTables}
use fun_makers_system.Effects.Keeps.{Keeps, read_or_fail-Keeps}
use fun_makers_system.Budget.Lines.{Source, add_actual, add_committed, sub_actual}
use fun_makers_system.Budget.Absorption.{
  absorb_po_commitment_handler, reverse_po_commitment_handler, absorb_supplier_invoice_handler,
  absorb_expense_handler, absorb_credit_note_handler, absorb_po, reverse_po, absorb_si,
  absorb_expense, absorb_credit_note, find_po, find_si, find_expense, find_credit_note, with_po,
  with_category, or_else_option, po_source, on_category, change_line, release_line, invoice_line,
}
use fun_makers_system.Convergence.Apart.{
  Standing, guarded-Standing, on_category-Standing, change_line-Standing, release_line-Standing,
  invoice_line-Standing,
}

module _ (R : RecordTables) (W : WorkflowTables) where
  pub absorb_po-Standing :
      (p r actor : ℕ) → Keeps (Standing R W) (absorb_po_commitment_handler p r actor)
  unfolding absorb_po_commitment_handler absorb_po
  absorb_po-Standing p r actor =
      let s = po_source p r in
      guarded-Standing R W s (absorb_po s actor) (
        read_or_fail-Keeps (Standing R W) (λ d. find_po s.record_id d.budget) record_not_found
          (λ po. on_category s po.category_id (
            change_line (add_committed po.total_amount) po.total_amount absorb_po_commitment s
              actor))
          (λ v h po y.
            on_category-Standing R W s po.category_id
              (change_line (add_committed po.total_amount) po.total_amount absorb_po_commitment s
                actor)
              (change_line-Standing R W (add_committed po.total_amount) po.total_amount
                absorb_po_commitment s actor)
              v h))

  pub reverse_po-Standing :
      (p r actor : ℕ) → Keeps (Standing R W) (reverse_po_commitment_handler p r actor)
  unfolding reverse_po_commitment_handler reverse_po
  reverse_po-Standing p r actor =
      let s = record (po_source p r) { absorption_type = po_reversal } in
      guarded-Standing R W s (reverse_po s actor) (
        read_or_fail-Keeps (Standing R W) (λ d. find_po s.record_id d.budget) record_not_found
          (λ po. on_category s po.category_id (release_line po.total_amount s actor))
          (λ v h po y.
            on_category-Standing R W s po.category_id (release_line po.total_amount s actor)
              (release_line-Standing R W po.total_amount s actor) v h))

  pub absorb_si-Standing :
      (p r actor : ℕ) → Keeps (Standing R W) (absorb_supplier_invoice_handler p r actor)
  unfolding absorb_supplier_invoice_handler absorb_si
  absorb_si-Standing p r actor =
      let s : Source = record {
        project_id = p;
        record_type = supplier_invoice;
        record_id = r;
        absorption_type = si_actual;
      } in
      guarded-Standing R W s (absorb_si s actor) (
        read_or_fail-Keeps (Standing R W) (λ d. with_po d.budget (find_si s.record_id d.budget))
          record_not_found
          (λ (si, c).
            on_category s (or_else_option si.category_id c)
              (invoice_line si.total_amount c s actor))
          (λ v h (si, c) y.
            on_category-Standing R W s (or_else_option si.category_id c)
              (invoice_line si.total_amount c s actor)
              (invoice_line-Standing R W si.total_amount c s actor) v h))

  pub absorb_expense-Standing :
      (p r actor : ℕ) → Keeps (Standing R W) (absorb_expense_handler p r actor)
  unfolding absorb_expense_handler absorb_expense
  absorb_expense-Standing p r actor =
      let s : Source = record {
        project_id = p;
        record_type = expense;
        record_id = r;
        absorption_type = expense_actual;
      } in
      guarded-Standing R W s (absorb_expense s actor) (
        read_or_fail-Keeps (Standing R W) (λ d. find_expense s.record_id d.budget) record_not_found
          (λ e.
            on_category s e.category_id
              (change_line (add_actual e.amount) e.amount absorb_expense_actual s actor))
          (λ v h e y.
            on_category-Standing R W s e.category_id
              (change_line (add_actual e.amount) e.amount absorb_expense_actual s actor)
              (change_line-Standing R W (add_actual e.amount) e.amount absorb_expense_actual s
                actor)
              v h))

  pub absorb_credit_note-Standing :
      (p r actor : ℕ) → Keeps (Standing R W) (absorb_credit_note_handler p r actor)
  unfolding absorb_credit_note_handler absorb_credit_note
  absorb_credit_note-Standing p r actor =
      let s : Source = record {
        project_id = p;
        record_type = credit_note;
        record_id = r;
        absorption_type = cn_reversal;
      } in
      guarded-Standing R W s (absorb_credit_note s actor) (
        read_or_fail-Keeps (Standing R W)
          (λ d. with_category d.budget (find_credit_note s.record_id d.budget)) record_not_found
          (λ (n, c).
            on_category s c
              (change_line (sub_actual n.amount) n.amount absorb_credit_note_reversal s actor))
          (λ v h (n, c) y.
            on_category-Standing R W s c
              (change_line (sub_actual n.amount) n.amount absorb_credit_note_reversal s actor)
              (change_line-Standing R W (sub_actual n.amount) n.amount absorb_credit_note_reversal s
                actor)
              v h))
