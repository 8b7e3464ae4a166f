-- ===== src/Budget/Committed.antt =====
-- The five handlers keep every commitment at or above zero.
use fun_makers_system.Base.{
  ℕ, Bool, true, false, ◌≡◌, Option, none, some, All-In, find-In, arith, ◌==◌,
}
use fun_makers_system.Base.Int.{ℤ, pos, ◌≤ℤ◌, ◌+ℤ◌, leb_ℤ}
use fun_makers_system.Data.Audit.{
  absorb_po_commitment, absorb_supplier_invoice_actual, reverse_po_commitment,
  absorb_expense_actual, absorb_credit_note_reversal,
}
use fun_makers_system.Data.Budget.{BudgetLine}
use fun_makers_system.Data.Errors.{record_not_found}
use fun_makers_system.Effects.{World, ◌>>◌, pure, command}
use fun_makers_system.Effects.Keeps.{
  Keeps, Reads-Keeps, bind-Keeps, read_or_fail-Keeps, transaction-Keeps, command_at,
}
use fun_makers_system.Audit.{audit_log}
use fun_makers_system.Budget.Lines.{
  Source, find_line, update_line, bounded_release, release_unless, release_in_tx,
  release_commitment_bounded, resolve_budget_line, resolved, unresolved, add_committed, add_actual,
  sub_actual, sub_committed,
}
use fun_makers_system.Budget.Absorption.{
  absorbed, absorption_entry, find_po, absorb_po, release_line, reverse_po, relieve_resolved,
  relieve, invoice_line, absorb_si, find_expense, absorb_expense, absorb_credit_note, change_line,
  on_category, or_else_option, find_si, with_po, find_credit_note, with_category,
}
use fun_makers_system.Budget.Release.{bounded_release_bounds}
use fun_makers_system.Budget.Sound.{
  NonNegative, GoodOrder, Sound, update_line-Sound, audit_log-Keeps, resolve_budget_line-Reads,
  on_category-Keeps, change_line-Keeps, update_line-Keeps,
}

-- A release of what the line found can bear.
release_unless-Sound :
    (b : Bool) (id : ℕ) (amount : ℤ) (l : BudgetLine) (w : World)
    → find_line id w.db.budget.lines ≡ some l
    → Sound w.db
    → Sound (release_unless b id (bounded_release l.committed_amount amount) w).1.db
release_unless-Sound true id amount l w f h = h
release_unless-Sound false id amount l w f h =
    let released = bounded_release l.committed_amount amount in
    let write = update_line id (sub_committed released) in
    let e : (release_unless false id released w).1.db ≡ (command write w).1.db = ground arith in
    let bears : (x : BudgetLine)
        → find_line id w.db.budget.lines ≡ some x
        → NonNegative x
        → NonNegative (sub_committed released x) =
      λ x y k.
        let q : x ≡ l = ground arith in
        rw q ((bounded_release_bounds l.committed_amount amount (rw q at k)).0) in
    rw e (
      command_at Sound write w h
        (λ d. update_line-Sound id (sub_committed released) w.db d bears h))

release_in_tx-Keeps : (id : ℕ) (amount : ℤ) → Keeps Sound (release_in_tx id amount)
unfolding release_in_tx
release_in_tx-Keeps id amount =
    read_or_fail-Keeps Sound (λ d. find_line id d.budget.lines) record_not_found
      (λ line.
        release_unless (leb_ℤ (bounded_release line.committed_amount amount) (pos 0)) id
          (bounded_release line.committed_amount amount))
      (λ v h l y.
        release_unless-Sound (leb_ℤ (bounded_release l.committed_amount amount) (pos 0)) id amount l
          v y h)

pub release_commitment_bounded-Keeps :
    (id : ℕ) (amount : ℤ) → Keeps Sound (release_commitment_bounded id amount)
unfolding release_commitment_bounded
release_commitment_bounded-Keeps id amount =
    transaction-Keeps Sound (release_in_tx id amount) (release_in_tx-Keeps id amount)

relieve-Keeps : (p : ℕ) (amount : ℤ) (o : Option ℕ) → Keeps Sound (relieve p amount o)
unfolding relieve relieve_resolved
relieve-Keeps p amount none = λ w h. h
relieve-Keeps p amount (some c) =
    bind-Keeps Sound (resolve_budget_line p c) (λ r. relieve_resolved amount r)
      (Reads-Keeps Sound (resolve_budget_line p c) (resolve_budget_line-Reads p c))
      (λ r. elim r as (λ r. Keeps Sound (relieve_resolved amount r)) [
        | resolved l ↦
            bind-Keeps Sound (release_commitment_bounded l.id amount) (λ x. pure tt)
              (release_commitment_bounded-Keeps l.id amount) (λ x w h. h)
        | unresolved reason ↦ λ w h. h
      ])

release_line-Keeps :
    (amount : ℤ) (s : Source) (actor : ℕ) (l : BudgetLine)
    → Keeps Sound (release_line amount s actor l)
unfolding release_line
release_line-Keeps amount s actor l =
    let e = absorption_entry reverse_po_commitment s actor l.id in
    bind-Keeps Sound (release_commitment_bounded l.id amount)
      (λ r. audit_log e >> pure (absorbed l.id r)) (release_commitment_bounded-Keeps l.id amount)
      (λ r.
        bind-Keeps Sound (audit_log e) (λ y. pure (absorbed l.id r)) (audit_log-Keeps e)
          (λ y w h. h))

invoice_line-Keeps :
    (amount : ℤ) (o : Option ℕ) (s : Source) (actor : ℕ) (l : BudgetLine)
    → Keeps Sound (invoice_line amount o s actor l)
unfolding invoice_line
invoice_line-Keeps amount o s actor l =
    let e = absorption_entry absorb_supplier_invoice_actual s actor l.id in
    bind-Keeps Sound (command (update_line l.id (add_actual amount)))
      (λ x. relieve s.project_id amount o >> (audit_log e >> pure (absorbed l.id amount)))
      (update_line-Keeps l.id (add_actual amount) (λ l h. h))
      (λ x.
        bind-Keeps Sound (relieve s.project_id amount o)
          (λ y. audit_log e >> pure (absorbed l.id amount)) (relieve-Keeps s.project_id amount o)
          (λ y.
            bind-Keeps Sound (audit_log e) (λ z. pure (absorbed l.id amount)) (audit_log-Keeps e)
              (λ z w h. h)))

add_committed-NonNegative :
    (a : ℤ) (l : BudgetLine) → pos 0 ≤ℤ a → NonNegative l → NonNegative (add_committed a l)
unfolding ◌+ℤ◌
add_committed-NonNegative a l h k = ground arith

pub absorb_po-Keeps : (s : Source) (actor : ℕ) → Keeps Sound (absorb_po s actor)
unfolding absorb_po
absorb_po-Keeps s actor =
    read_or_fail-Keeps Sound (λ d. find_po s.record_id d.budget) record_not_found
      (λ po.
        on_category s po.category_id (
          change_line (add_committed po.total_amount) po.total_amount absorb_po_commitment s actor))
      (λ v h po y.
        let (m, t) = find-In (λ p. p.id == s.record_id) v.db.budget.purchase_orders po y in
        let good = All-In GoodOrder v.db.budget.purchase_orders po h.orders_sound m in
        let f = add_committed po.total_amount in
        on_category-Keeps s po.category_id
          (change_line f po.total_amount absorb_po_commitment s actor)
          (change_line-Keeps f po.total_amount absorb_po_commitment s actor
            (λ l. add_committed-NonNegative po.total_amount l good))
          v h)

pub reverse_po-Keeps : (s : Source) (actor : ℕ) → Keeps Sound (reverse_po s actor)
unfolding reverse_po
reverse_po-Keeps s actor =
    read_or_fail-Keeps Sound (λ d. find_po s.record_id d.budget) record_not_found
      (λ po. on_category s po.category_id (release_line po.total_amount s actor))
      (λ v h po y.
        on_category-Keeps s po.category_id (release_line po.total_amount s actor)
          (release_line-Keeps po.total_amount s actor) v h)

pub absorb_si-Keeps : (s : Source) (actor : ℕ) → Keeps Sound (absorb_si s actor)
unfolding absorb_si
absorb_si-Keeps s actor =
    read_or_fail-Keeps Sound (λ d. with_po d.budget (find_si s.record_id d.budget)) record_not_found
      (λ (si, c).
        on_category s (or_else_option si.category_id c) (invoice_line si.total_amount c s actor))
      (λ v h (si, c) y.
        on_category-Keeps s (or_else_option si.category_id c)
          (invoice_line si.total_amount c s actor) (invoice_line-Keeps si.total_amount c s actor) v
          h)

pub absorb_expense-Keeps : (s : Source) (actor : ℕ) → Keeps Sound (absorb_expense s actor)
unfolding absorb_expense
absorb_expense-Keeps s actor =
    read_or_fail-Keeps Sound (λ d. find_expense s.record_id d.budget) record_not_found
      (λ e.
        on_category s e.category_id
          (change_line (add_actual e.amount) e.amount absorb_expense_actual s actor))
      (λ v h e y.
        on_category-Keeps s e.category_id
          (change_line (add_actual e.amount) e.amount absorb_expense_actual s actor)
          (change_line-Keeps (add_actual e.amount) e.amount absorb_expense_actual s actor
            (λ l k. k))
          v h)

pub absorb_credit_note-Keeps : (s : Source) (actor : ℕ) → Keeps Sound (absorb_credit_note s actor)
unfolding absorb_credit_note
absorb_credit_note-Keeps s actor =
    read_or_fail-Keeps Sound (λ d. with_category d.budget (find_credit_note s.record_id d.budget))
      record_not_found
      (λ (n, c).
        on_category s c
          (change_line (sub_actual n.amount) n.amount absorb_credit_note_reversal s actor))
      (λ v h (n, c) y.
        on_category-Keeps s c
          (change_line (sub_actual n.amount) n.amount absorb_credit_note_reversal s actor)
          (change_line-Keeps (sub_actual n.amount) n.amount absorb_credit_note_reversal s actor
            (λ l k. k))
          v h)
