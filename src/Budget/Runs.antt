-- ===== src/Budget/Runs.antt =====
-- Runs of the handlers.
use fun_makers_system.Base.{ℕ, ◌≡◌, List, [], ◌∷◌, inl, inr, arith}
use fun_makers_system.Effects.{World, Action, ok}
use fun_makers_system.Effects.Keeps.{Keeps}
use fun_makers_system.Effects.Laws.{Outcome-cases}
use fun_makers_system.Data.Budget.{
  po_reversal, si_actual, supplier_invoice, expense, expense_actual, credit_note, cn_reversal,
  internal_error,
}
use fun_makers_system.Budget.Lines.{Source}
use fun_makers_system.Budget.Absorption.{
  AbsorptionResult, not_absorbed, recording_failed, guarded, record_crash, absorb_po, reverse_po,
  absorb_si, absorb_expense, absorb_credit_note, absorb_po_commitment_handler,
  reverse_po_commitment_handler, absorb_supplier_invoice_handler, absorb_expense_handler,
  absorb_credit_note_handler, po_source,
}
use fun_makers_system.Budget.Sound.{Sound, guarded-Keeps}
use fun_makers_system.Budget.Committed.{
  absorb_po-Keeps, reverse_po-Keeps, absorb_si-Keeps, absorb_expense-Keeps,
  absorb_credit_note-Keeps,
}

-- A call of a handler: the project, the record and the actor.
pub data Absorption : Type 0 where
  po_approved po_cancelled invoice_approved expense_approved credit_note_applied :
      ℕ → ℕ → ℕ → Absorption

abbrev pub absorb : Absorption → Action AbsorptionResult
absorb (po_approved p r a) = absorb_po_commitment_handler p r a
absorb (po_cancelled p r a) = reverse_po_commitment_handler p r a
absorb (invoice_approved p r a) = absorb_supplier_invoice_handler p r a
absorb (expense_approved p r a) = absorb_expense_handler p r a
absorb (credit_note_applied p r a) = absorb_credit_note_handler p r a

-- One call after the other.
abbrev pub absorb_all : List Absorption → World → World
absorb_all [] w = w
absorb_all (x ∷ xs) w = absorb_all xs (absorb x w).1

absorb-Keeps : (x : Absorption) → Keeps Sound (absorb x)
unfolding absorb_po_commitment_handler reverse_po_commitment_handler absorb_supplier_invoice_handler
    absorb_expense_handler absorb_credit_note_handler
absorb-Keeps (po_approved p r a) =
    let s = po_source p r in guarded-Keeps s (absorb_po s a) (absorb_po-Keeps s a)
absorb-Keeps (po_cancelled p r a) =
    let s = record (po_source p r) { absorption_type = po_reversal } in
    guarded-Keeps s (reverse_po s a) (reverse_po-Keeps s a)
absorb-Keeps (invoice_approved p r a) =
    let s : Source = record {
      project_id = p;
      record_type = supplier_invoice;
      record_id = r;
      absorption_type = si_actual;
    } in
    guarded-Keeps s (absorb_si s a) (absorb_si-Keeps s a)
absorb-Keeps (expense_approved p r a) =
    let s : Source = record {
      project_id = p;
      record_type = expense;
      record_id = r;
      absorption_type = expense_actual;
    } in
    guarded-Keeps s (absorb_expense s a) (absorb_expense-Keeps s a)
absorb-Keeps (credit_note_applied p r a) =
    let s : Source = record {
      project_id = p;
      record_type = credit_note;
      record_id = r;
      absorption_type = cn_reversal;
    } in
    guarded-Keeps s (absorb_credit_note s a) (absorb_credit_note-Keeps s a)

-- From a database where no line's commitment and no order's total is negative, every sequence of
-- calls of the five handlers, whatever fails in them, leads to one where that still holds.
pub absorb_all-Sound : (xs : List Absorption) (w : World) → Sound w.db → Sound (absorb_all xs w).db
absorb_all-Sound [] w h = h
absorb_all-Sound (x ∷ xs) w h = absorb_all-Sound xs (absorb x w).1 (absorb-Keeps x w h)

guarded_returns :
    (s : Source) (m : Action AbsorptionResult) (w : World)
    → (r : AbsorptionResult) × ((guarded s m w).0 ≡ ok r)
unfolding guarded
guarded_returns s m w = elim (Outcome-cases (m w).0) [
  | inl (r, c) ↦ (r, ground arith)
  | inr (e, c) ↦ elim (Outcome-cases (record_crash s (m w).1).0) [
    | inl (r, d) ↦ (r, ground arith)
    | inr (x, d) ↦ (not_absorbed recording_failed internal_error, ground arith)
  ]
]

-- A handler returns a result and throws nothing, whatever calls of the database fail.
pub absorb_returns : (x : Absorption) (w : World) → (r : AbsorptionResult) × ((absorb x w).0 ≡ ok r)
unfolding absorb_po_commitment_handler reverse_po_commitment_handler absorb_supplier_invoice_handler
    absorb_expense_handler absorb_credit_note_handler
absorb_returns (po_approved p r a) w = let s = po_source p r in guarded_returns s (absorb_po s a) w
absorb_returns (po_cancelled p r a) w =
    let s = record (po_source p r) { absorption_type = po_reversal } in
    guarded_returns s (reverse_po s a) w
absorb_returns (invoice_approved p r a) w =
    let s : Source = record {
      project_id = p;
      record_type = supplier_invoice;
      record_id = r;
      absorption_type = si_actual;
    } in
    guarded_returns s (absorb_si s a) w
absorb_returns (expense_approved p r a) w =
    let s : Source = record {
      project_id = p;
      record_type = expense;
      record_id = r;
      absorption_type = expense_actual;
    } in
    guarded_returns s (absorb_expense s a) w
absorb_returns (credit_note_applied p r a) w =
    let s : Source = record {
      project_id = p;
      record_type = credit_note;
      record_id = r;
      absorption_type = cn_reversal;
    } in
    guarded_returns s (absorb_credit_note s a) w
