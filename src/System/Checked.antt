-- ===== src/System/Checked.antt =====
-- The checks of a manual transition, and what they establish.
use fun_makers_system.Base.{
  ◌≡◌, refl, inl, inr, Bool, true, false, some, arith, Option-cases, not, ap, ◌==◌,
}
use fun_makers_system.Data.Records.{RecordStatus, RecordAction, RecordRow}
use fun_makers_system.Effects.{World, ok, ◌>>◌, pure, throw_if, advance}
use fun_makers_system.Data.Errors.{
  scope_mismatch, terminal_status, invalid_transition, workflow_managed,
}
use fun_makers_system.Effects.Laws.{Reads}
use fun_makers_system.Convergence.{find_row}
use fun_makers_system.Transitions.{
  Machine, TransitionInput, check_transition, assert_project_scope, check_row, has_status,
  has_action,
}
use fun_makers_system.Transitions.Tables.{
  po_machine, si_machine, expense_machine, cn_machine, vendor_contract_machine,
}
use fun_makers_system.System.{is_past_approval}

pub record CheckedTransition (m : Machine) (p : TransitionInput) (w : World) (r : RecordRow)
    (t : RecordStatus) : Type 0 where
  pub row_found : find_row m.kind p.id w.db.records.rows ≡ some r
  pub targeted : m.target p.action ≡ some t
  pub scoped : r.project_id ≡ p.project_id
  pub alive : has_status m.terminal r.status ≡ false
  pub permitted : has_status (m.allowed r.status) t ≡ true
  pub unmanaged : has_action m.managed p.action ≡ false

pub check_transition-Reads : (m : Machine) (p : TransitionInput) → Reads (check_transition m p)
unfolding check_transition check_row assert_project_scope
check_transition-Reads m p w = ground arith

record RowChecked (m : Machine) (p : TransitionInput) (t : RecordStatus) (r : RecordRow)
    : Type 0 where
  scoped : (r.project_id == p.project_id) ≡ true
  alive : has_status m.terminal r.status ≡ false
  permitted : has_status (m.allowed r.status) t ≡ true
  unmanaged : has_action m.managed p.action ≡ false

check_row-ok :
    (m : Machine) (p : TransitionInput) (t : RecordStatus) (r : RecordRow) (w : World)
    (x : RecordRow × RecordStatus)
    → (check_row m p t r w).0 ≡ ok x
    → RowChecked m p t r × (x ≡ (r, t))
unfolding check_row assert_project_scope
check_row-ok m p t r w x h =
    go (r.project_id == p.project_id) (has_status m.terminal r.status)
      (has_status (m.allowed r.status) t) (has_action m.managed p.action) refl refl refl refl h
  where
    go :
        (a b c d : Bool)
        → (r.project_id == p.project_id) ≡ a
        → has_status m.terminal r.status ≡ b
        → has_status (m.allowed r.status) t ≡ c
        → has_action m.managed p.action ≡ d
        → ((throw_if (not a) (scope_mismatch r.kind r.id)
              >> (throw_if b (terminal_status m.kind r.status)
                  >> (throw_if (not c) (invalid_transition m.kind r.status t)
                      >> (throw_if d (workflow_managed m.kind p.action) >> pure (r, t)))))
            w).0
          ≡ ok x
        → RowChecked m p t r × (x ≡ (r, t))
    go false b c d ea eb ec ed h = absurd (cc h)
    go true true c d ea eb ec ed h = absurd (cc h)
    go true false false d ea eb ec ed h = absurd (cc h)
    go true false true true ea eb ec ed h = absurd (cc h)
    go true false true false ea eb ec ed h =
        (record { scoped = ea; alive = eb; permitted = ec; unmanaged = ed }, cc h)

pub check_transition-Checked :
    (m : Machine) (p : TransitionInput) (w : World) (r : RecordRow) (t : RecordStatus)
    → (check_transition m p w).0 ≡ ok (r, t)
    → CheckedTransition m p w r t
unfolding check_transition
check_transition-Checked m p w r t h = elim (Option-cases (m.target p.action)) [
  | inl n ↦ absurd (ground arith)
  | inr (t', e) ↦ elim (Option-cases (find_row m.kind p.id w.db.records.rows)) [
    | inl n ↦ absurd (ground arith)
    | inr (r', y) ↦
        let ran : (check_row m p t' r' (advance w)).0 ≡ ok (r, t) = ground (arith, e, y, h) in
        let (v, q) = check_row-ok m p t' r' (advance w) (r, t) ran in
        let qr : r ≡ r' = ap (λ (z : RecordRow × RecordStatus). z.0) q in
        let qt : t ≡ t' = ap (λ (z : RecordRow × RecordStatus). z.1) q in
        record {
          row_found = rw qr y;
          targeted = rw qt e;
          scoped = rw qr (ground (arith, v.scoped));
          alive = rw qr v.alive;
          permitted = rw (qr, qt) v.permitted;
          unmanaged = v.unmanaged;
        }
  ]
]

-- A table that leads past the approval only from where a record already is past it, but for the actions
-- of the workflow engine.
abbrev pub Guarded : Machine → Type 0
Guarded m =
    (a : RecordAction) (s t : RecordStatus)
    → m.target a ≡ some t
    → has_action m.managed a ≡ false
    → has_status (m.allowed s) t ≡ true
    → is_past_approval m.kind t ≡ true
    → is_past_approval m.kind s ≡ true

pub vendor_contract_machine-Guarded : Guarded vendor_contract_machine
vendor_contract_machine-Guarded a s t e u h p = cc

pub cn_machine-Guarded : Guarded cn_machine
cn_machine-Guarded a s t e u h p = cc

pub po_machine-Guarded : Guarded po_machine
po_machine-Guarded a s t e u h p = ground arith

pub si_machine-Guarded : Guarded si_machine
si_machine-Guarded a s t e u h p = ground arith

pub expense_machine-Guarded : Guarded expense_machine
expense_machine-Guarded a s t e u h p = ground arith
