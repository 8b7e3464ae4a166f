-- ===== src/Budget/Relief.antt =====
-- What an absorbed supplier invoice has written: its actual amount, and the relief of its order's
-- commitment.
use fun_makers_system.Base.{
  ℕ, ◌≡◌, inl, inr, refl, Option, none, some, List, if◌then◌else◌, update_first, arith,
  Option-cases, Bool-cases,
}
use fun_makers_system.Base.Int.{ℤ, pos, leb_ℤ}
use fun_makers_system.Data.Budget.{BudgetLine}
use fun_makers_system.Effects.{World, ok}
use fun_makers_system.Effects.Laws.{Outcome-cases}
use fun_makers_system.Budget.Lines.{
  same_line, find_line, bounded_release, release_in_tx, release_commitment_bounded, sub_committed,
  resolved, unresolved, resolve_budget_line,
}
use fun_makers_system.Budget.Absorption.{relieve, relieve_resolved}
use fun_makers_system.Budget.Sound.{resolve_budget_line-Reads}
use fun_makers_system.Budget.Effect.{LineOf, resolve_budget_line_ok, resolve_budget_line-unresolved}

-- The lines after a release of `r`: nothing is written for 0.
abbrev pub released_lines : ℕ → ℤ → List BudgetLine → List BudgetLine
released_lines id r ls =
    if leb_ℤ r (pos 0) then ls else update_first (same_line id) (sub_committed r) ls

-- A release by the line `id`.
pub record Released (id : ℕ) (amount r : ℤ) (w w' : World) : Type 0 where
  pub line : BudgetLine
  pub line_found : find_line id w.db.budget.lines ≡ some line
  pub amount_released : r ≡ bounded_release line.committed_amount amount
  pub lines_after : w'.db.budget.lines ≡ released_lines id r w.db.budget.lines
  pub audit_same : w'.db.audit ≡ w.db.audit

pub release_ok :
    (id : ℕ) (amount : ℤ) (w : World) (r : ℤ)
    → (release_commitment_bounded id amount w).0 ≡ ok r
    → Released id amount r w (release_commitment_bounded id amount w).1
unfolding release_commitment_bounded release_in_tx
release_ok id amount w r h = elim (Option-cases (find_line id w.db.budget.lines)) [
  | inl n ↦ absurd (ground arith)
  | inr (l, y) ↦ elim (Bool-cases (leb_ℤ (bounded_release l.committed_amount amount) (pos 0))) [
    | inl z ↦ record {
      line = l;
      line_found = y;
      amount_released = ground arith;
      lines_after = ground arith;
      audit_same = ground arith;
    }
    | inr p ↦ record {
      line = l;
      line_found = y;
      amount_released = ground arith;
      lines_after = ground arith;
      audit_same = ground arith;
    }
  ]
]

-- The relief of an invoice: nothing is written only where the order has no category or its category has
-- no line; otherwise it is a release by that line.
pub data Relieved (project_id : ℕ) (amount : ℤ) (o : Option ℕ) (w w' : World) : Type 0 where
  unrelieved :
      ((c : ℕ) (l : BudgetLine) → o ≡ some c → ¬ LineOf w.db project_id c l)
      → w'.db.budget.lines ≡ w.db.budget.lines
      → w'.db.audit ≡ w.db.audit
      → Relieved project_id amount o w w'
  relieved :
      (c : ℕ) (l : BudgetLine) (r : ℤ)
      → o ≡ some c
      → LineOf w.db project_id c l
      → Released l.id amount r w w'
      → Relieved project_id amount o w w'

Released-from :
    {id : ℕ} {amount r : ℤ} {w v w' : World}
    → v.db ≡ w.db
    → Released id amount r v w'
    → Released id amount r w w'
Released-from s p = record {
  line = p.line;
  line_found = rw s at (p.line_found);
  amount_released = p.amount_released;
  lines_after = rw s at (p.lines_after);
  audit_same = rw s at (p.audit_same);
}

pub relieve_ok :
    (p : ℕ) (amount : ℤ) (o : Option ℕ) (w : World)
    → (relieve p amount o w).0 ≡ ok tt
    → Relieved p amount o w (relieve p amount o w).1
unfolding relieve relieve_resolved
relieve_ok p amount none w h = unrelieved (λ c l e. absurd (ground arith)) refl refl
relieve_ok p amount (some c) w h =
    let v = (resolve_budget_line p c w).1 in
    let same = (resolve_budget_line-Reads p c w).same_db in
    elim (Outcome-cases (resolve_budget_line p c w).0) [
      | inl (resolved l, y) ↦ elim (Outcome-cases (release_commitment_bounded l.id amount v).0) [
        | inl (r, z) ↦
            let e : (release_commitment_bounded l.id amount v).1 ≡ (relieve p amount (some c) w).1 =
              ground arith in
            relieved c l r refl (resolve_budget_line_ok p c w l y)
              (rw (← e) (Released-from same (release_ok l.id amount v r z)))
        | inr (x, z) ↦ absurd (ground arith)
      ]
      | inl (unresolved reason, y) ↦
          unrelieved
            (λ d l e f.
              let q : d ≡ c = ground arith in
              resolve_budget_line-unresolved p c w reason l y (rw q at f))
            (ground (arith, same)) (ground (arith, same))
      | inr (x, y) ↦ absurd (ground arith)
    ]
