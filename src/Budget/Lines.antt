-- ===== src/Budget/Lines.antt =====
-- packages/core/src/budget/absorption.ts: finding a budget line, changing it, and the record of an
-- absorption that could not proceed.
use fun_makers_system.Base.{
  ℕ, Bool, true, false, Option, none, some, List, [], ◌∷◌, ◌++◌, ◌==◌, find, update_first,
  if◌then◌else◌,
}
use fun_makers_system.Base.Int.{ℤ, pos, ◌+ℤ◌, ◌-ℤ◌, ltb_ℤ, leb_ℤ}
use fun_makers_system.Data.Budget.{
  BudgetLine, Category, ProjectBudget, SourceRecordType, AbsorptionType, ReasonCode, Severity,
  BudgetAbsorptionException, no_budget, no_procurement_category, no_budget_category, no_budget_line,
}
use fun_makers_system.Data.Errors.{record_not_found}
use fun_makers_system.Effects.{
  Db, Action, ◌>>=◌, ◌>>◌, pure, or_throw, query, command, create, transaction,
}
use fun_makers_system.Org.{resolve_project_org_id}

-- The record that an absorption is about: its table, its id, and the kind of the absorption.
pub record Source : Type 0 where
  pub project_id : ℕ
  pub record_type : SourceRecordType
  pub record_id : ℕ
  pub absorption_type : AbsorptionType

abbrev pub same_line : ℕ → BudgetLine → Bool
same_line id l = l.id == id

abbrev pub find_line : ℕ → List BudgetLine → Option BudgetLine
find_line id = find (same_line id)

abbrev pub with_lines : Db → List BudgetLine → Db
with_lines d ls = record d { budget = record (d.budget) { lines = ls } }

abbrev pub update_line : ℕ → (BudgetLine → BudgetLine) → Db → Option Db
update_line id f d = elim (find_line id d.budget.lines) [
  | none ↦ none
  | some _ ↦ some (with_lines d (update_first (same_line id) f d.budget.lines))
]

-- The increments and decrements of a column.
abbrev pub add_committed : ℤ → BudgetLine → BudgetLine
add_committed a l = record l { committed_amount = l.committed_amount +ℤ a }

abbrev pub sub_committed : ℤ → BudgetLine → BudgetLine
sub_committed a l = record l { committed_amount = l.committed_amount -ℤ a }

abbrev pub add_actual : ℤ → BudgetLine → BudgetLine
add_actual a l = record l { actual_amount = l.actual_amount +ℤ a }

abbrev pub sub_actual : ℤ → BudgetLine → BudgetLine
sub_actual a l = record l { actual_amount = l.actual_amount -ℤ a }

abbrev pub absorption_exception : Source → ReasonCode → Severity → ℕ → ℕ → BudgetAbsorptionException
absorption_exception s reason severity org_id id = record {
  id = id;
  org_id = org_id;
  project_id = s.project_id;
  source_record_type = s.record_type;
  source_record_id = s.record_id;
  absorption_type = s.absorption_type;
  reason_code = reason;
  severity = severity;
}

abbrev pub find_absorption_exception :
    ℕ → List BudgetAbsorptionException → Option BudgetAbsorptionException
find_absorption_exception id = find (λ x. x.id == id)

abbrev pub insert_absorption_exception : BudgetAbsorptionException → Db → Option Db
insert_absorption_exception x d =
    elim (find_absorption_exception x.id d.budget.absorption_exceptions) [
      | some _ ↦ none
      | none ↦ some (record d {
        budget = record (d.budget) {
          absorption_exceptions = d.budget.absorption_exceptions ++ (x ∷ []);
        };
      })
    ]

-- `recordAbsorptionException`
unfoldable pub record_absorption_exception : Source → ReasonCode → Severity → Action ℕ
record_absorption_exception s reason severity = do
  org_id ← resolve_project_org_id s.project_id
  create (λ id. insert_absorption_exception (absorption_exception s reason severity org_id id))

-- The lesser of what is committed and the amount, and 0 when that is not positive.
unfoldable pub bounded_release : ℤ → ℤ → ℤ
bounded_release current amount =
    let released = if ltb_ℤ current amount then current else amount in
    if leb_ℤ released (pos 0) then pos 0 else released

-- `true` is a release that is 0.
abbrev pub release_unless : Bool → ℕ → ℤ → Action ℤ
release_unless true id released = pure released
release_unless false id released =
    command (update_line id (sub_committed released)) >> pure released

-- The body of `releaseCommitmentBounded`.
unfoldable pub release_in_tx : ℕ → ℤ → Action ℤ
release_in_tx id amount = do
  found ← query (λ d. find_line id d.budget.lines)
  line ← or_throw found record_not_found
  let released = bounded_release line.committed_amount amount
  release_unless (leb_ℤ released (pos 0)) id released

-- `releaseCommitmentBounded`
unfoldable pub release_commitment_bounded : ℕ → ℤ → Action ℤ
release_commitment_bounded id amount = transaction (release_in_tx id amount)

pub data Resolved : Type 0 where
  resolved : BudgetLine → Resolved
  unresolved : ReasonCode → Resolved

abbrev pub line_at : ℕ → ℕ → BudgetLine → Bool
line_at budget_id category_id l =
    if l.budget_id == budget_id then l.category_id == category_id else false

abbrev pub line_or_reason : Option BudgetLine → Resolved
line_or_reason none = unresolved no_budget_line
line_or_reason (some l) = resolved l

unfoldable pub resolve_in_category : ProjectBudget → Option Category → Action Resolved
resolve_in_category b none = pure (unresolved no_budget_category)
resolve_in_category b (some c) = do
  line ← query (λ d. find (line_at b.id c.id) d.budget.lines)
  pure (line_or_reason line)

unfoldable pub resolve_by_code : ProjectBudget → Option Category → Action Resolved
resolve_by_code b none = pure (unresolved no_procurement_category)
resolve_by_code b (some c) = do
  category ← query (λ d. find (λ x. x.code == c.code) d.budget.budget_categories)
  resolve_in_category b category

unfoldable pub resolve_in_budget : ℕ → Option ProjectBudget → Action Resolved
resolve_in_budget category_id none = pure (unresolved no_budget)
resolve_in_budget category_id (some b) = do
  category ← query (λ d. find (λ x. x.id == category_id) d.budget.procurement_categories)
  resolve_by_code b category

-- `resolveBudgetLine`
unfoldable pub resolve_budget_line : ℕ → ℕ → Action Resolved
resolve_budget_line project_id category_id = do
  budget ← query (λ d. find (λ b. b.project_id == project_id) d.budget.budgets)
  resolve_in_budget category_id budget
