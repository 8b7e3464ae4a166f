-- ===== src/Budget/Sound.antt =====
-- The committed amounts of the budget lines under the five handlers.
use fun_makers_system.Base.{
  ℕ, ◌≡◌, inl, inr, Option, none, some, arith, All-update_first, All, All-In, find-In, Option-cases,
}
use fun_makers_system.Base.Int.{ℤ, pos, ◌≤ℤ◌}
use fun_makers_system.Data.Budget.{
  BudgetLine, PurchaseOrder, ReasonCode, Severity, warning, critical, internal_error, no_category,
}
use fun_makers_system.Data.Audit.{AuditAction, AuditEntry}
use fun_makers_system.Effects.{Db, ◌>>◌, try_catch, Action, pure, command}
use fun_makers_system.Effects.Laws.{Reads}
use fun_makers_system.Effects.Keeps.{Keeps, Reads-Keeps, bind-Keeps, try_catch-Keeps, command-Keeps}
use fun_makers_system.Audit.{audit_log}
use fun_makers_system.Budget.Lines.{
  same_line, find_line, update_line, Source, record_absorption_exception, resolved, unresolved,
  resolve_budget_line, resolve_in_budget, resolve_by_code, resolve_in_category,
}
use fun_makers_system.Budget.Absorption.{
  AbsorptionResult, absorbed, not_absorbed, recorded, recording_failed, refuse, record_crash,
  guarded, on_line, on_category, change_line, absorption_entry,
}
use fun_makers_system.Org.{resolve_project_org_id}

abbrev pub NonNegative : BudgetLine → Type 0
NonNegative l = pos 0 ≤ℤ l.committed_amount

abbrev pub GoodOrder : PurchaseOrder → Type 0
GoodOrder p = pos 0 ≤ℤ p.total_amount

-- No line's commitment and no order's total is negative.
pub record Sound (d : Db) : Type 0 where
  pub lines_sound : All NonNegative d.budget.lines
  pub orders_sound : All GoodOrder d.budget.purchase_orders

-- A write to a line keeps the amounts sound, if it does so for the line found.
pub update_line-Sound :
    (id : ℕ) (f : BudgetLine → BudgetLine) (d d' : Db)
    → ((l : BudgetLine) → find_line id d.budget.lines ≡ some l → NonNegative l → NonNegative (f l))
    → Sound d
    → update_line id f d ≡ some d'
    → Sound d'
update_line-Sound id f d d' hf h e = elim (Option-cases (find_line id d.budget.lines)) [
  | inl n ↦ absurd (ground arith)
  | inr (l, y) ↦
      let (m, t) = find-In (same_line id) d.budget.lines l y in
      let k = hf l y (All-In NonNegative d.budget.lines l h.lines_sound m) in
      record {
        lines_sound = ground (
          arith,
          All-update_first NonNegative (same_line id) f d.budget.lines l h.lines_sound y k,
        );
        orders_sound = ground (arith, h.orders_sound);
      }
]

-- Calls that touch neither lines nor orders.
same_amounts-Sound :
    (d d' : Db)
    → d'.budget.lines ≡ d.budget.lines
    → d'.budget.purchase_orders ≡ d.budget.purchase_orders
    → Sound d
    → Sound d'
same_amounts-Sound d d' l o h = record {
  lines_sound = rw l h.lines_sound;
  orders_sound = rw o h.orders_sound;
}

pub audit_log-Keeps : (e : AuditEntry) → Keeps Sound (audit_log e)
unfolding audit_log
audit_log-Keeps e w = same_amounts-Sound w.db (audit_log e w).1.db (ground arith) (ground arith)

record_absorption_exception-Keeps :
    (s : Source) (r : ReasonCode) (v : Severity) → Keeps Sound (record_absorption_exception s r v)
unfolding record_absorption_exception resolve_project_org_id
record_absorption_exception-Keeps s r v w =
    same_amounts-Sound w.db (record_absorption_exception s r v w).1.db (ground arith) (ground arith)

pub resolve_budget_line-Reads : (p c : ℕ) → Reads (resolve_budget_line p c)
unfolding resolve_budget_line resolve_in_budget resolve_by_code resolve_in_category
resolve_budget_line-Reads p c w = ground arith

refuse-Keeps : (s : Source) (r : ReasonCode) → Keeps Sound (refuse s r)
unfolding refuse
refuse-Keeps s r =
    bind-Keeps Sound (record_absorption_exception s r warning)
      (λ id. pure (not_absorbed (recorded id) r)) (record_absorption_exception-Keeps s r warning)
      (λ id w h. h)

record_crash-Keeps : (s : Source) → Keeps Sound (record_crash s)
unfolding record_crash
record_crash-Keeps s =
    bind-Keeps Sound (record_absorption_exception s internal_error critical)
      (λ id. pure (not_absorbed (recorded id) internal_error))
      (record_absorption_exception-Keeps s internal_error critical) (λ id w h. h)

pub guarded-Keeps :
    (s : Source) (m : Action AbsorptionResult) → Keeps Sound m → Keeps Sound (guarded s m)
unfolding guarded
guarded-Keeps s m hm =
    try_catch-Keeps Sound m
      (λ e. try_catch (record_crash s) (λ x. pure (not_absorbed recording_failed internal_error)))
      hm
      (λ e.
        try_catch-Keeps Sound (record_crash s)
          (λ x. pure (not_absorbed recording_failed internal_error)) (record_crash-Keeps s)
          (λ x w h. h))

pub on_category-Keeps :
    (s : Source) (o : Option ℕ) (absorb : BudgetLine → Action AbsorptionResult)
    → ((l : BudgetLine) → Keeps Sound (absorb l))
    → Keeps Sound (on_category s o absorb)
unfolding on_category on_line
on_category-Keeps s none absorb h = refuse-Keeps s no_category
on_category-Keeps s (some c) absorb h =
    bind-Keeps Sound (resolve_budget_line s.project_id c) (λ r. on_line s absorb r)
      (Reads-Keeps Sound (resolve_budget_line s.project_id c)
        (resolve_budget_line-Reads s.project_id c))
      (λ r. elim r as (λ r. Keeps Sound (on_line s absorb r)) [
        | resolved l ↦ h l
        | unresolved reason ↦ refuse-Keeps s reason
      ])

pub update_line-Keeps :
    (id : ℕ) (f : BudgetLine → BudgetLine)
    → ((l : BudgetLine) → NonNegative l → NonNegative (f l))
    → Keeps Sound (command (update_line id f))
update_line-Keeps id f hf =
    command-Keeps Sound (update_line id f)
      (λ d d' h e. update_line-Sound id f d d' (λ l y. hf l) h e)

pub change_line-Keeps :
    (f : BudgetLine → BudgetLine) (a : ℤ) (k : AuditAction) (s : Source) (actor : ℕ)
    → ((l : BudgetLine) → NonNegative l → NonNegative (f l))
    → (l : BudgetLine) → Keeps Sound (change_line f a k s actor l)
unfolding change_line
change_line-Keeps f a k s actor hf l =
    let e = absorption_entry k s actor l.id in
    bind-Keeps Sound (command (update_line l.id f)) (λ x. audit_log e >> pure (absorbed l.id a))
      (update_line-Keeps l.id f hf)
      (λ x.
        bind-Keeps Sound (audit_log e) (λ y. pure (absorbed l.id a)) (audit_log-Keeps e)
          (λ y w h. h))
