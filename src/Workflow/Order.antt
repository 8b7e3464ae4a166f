-- ===== src/Workflow/Order.antt =====
-- The steps of a template in their order, and the step that comes next
-- (packages/core/src/workflow/steps.ts, `getInstanceWithTemplate`, `findCurrentStep`, `findNextStep`).
pub mod Sorted
pub mod InOrder
pub mod Next
pub mod Twins
use fun_makers_system.Base.{
  ℕ, Bool, false, not, Option, none, some, List, [], ◌∷◌, leb, ltb, ◌==◌, if◌then◌else◌, find,
  select, first, last,
}
use fun_makers_system.Data.Workflow.{WorkflowStep, WorkflowTemplate, WorkflowInstance}
use fun_makers_system.Effects.{Db}

-- `orderBy: { orderIndex: 'asc' }`
abbrev pub insert_step : WorkflowStep → List WorkflowStep → List WorkflowStep
insert_step s [] = s ∷ []
insert_step s (t ∷ ts) =
    let rest = insert_step s ts in
    if leb s.order_index t.order_index then s ∷ (t ∷ ts) else t ∷ rest

unfoldable pub order_by_index : List WorkflowStep → List WorkflowStep
order_by_index [] = []
order_by_index (s ∷ ss) = insert_step s (order_by_index ss)

-- An instance with its template, whose steps are in order.
pub record Loaded : Type 0 where
  pub instance_row : WorkflowInstance
  pub template_code : ℕ
  pub steps : List WorkflowStep

abbrev pub load : WorkflowInstance → Option WorkflowTemplate → Option Loaded
load i none = none
load i (some t) =
    some (record { instance_row = i; template_code = t.code; steps = order_by_index t.steps })

abbrev pub load_instance : Db → Option WorkflowInstance → Option Loaded
load_instance d none = none
load_instance d (some i) = load i (find (λ t. t.id == i.template_id) d.workflow.templates)

-- The rows that `findUnique` joins. A foreign key gives every instance a template.
unfoldable pub find_loaded : ℕ → Db → Option Loaded
find_loaded id d = load_instance d (find (λ i. i.id == id) d.workflow.instances)

abbrev pub is_step : Option ℕ → ℕ → Bool
is_step none id = false
is_step (some c) id = c == id

unfoldable pub find_current_step : Loaded → Option WorkflowStep
find_current_step l = find (λ s. is_step l.instance_row.current_step_id s.id) l.steps

abbrev pub or_else : Option WorkflowStep → Option WorkflowStep → Option WorkflowStep
or_else none o = o
or_else (some s) o = some s

-- The first required step after the current one, else the first optional one.
unfoldable pub find_next_step : List WorkflowStep → ℕ → Option WorkflowStep
find_next_step steps current_order_index =
    let remaining = select (λ s. ltb current_order_index s.order_index) steps in
    or_else (find (λ s. not s.is_optional) remaining) (first remaining)

-- The target of a return: the named step if it lies before the current one, else the last such step.
unfoldable pub find_previous_step : List WorkflowStep → ℕ → Option ℕ → Option WorkflowStep
find_previous_step steps current_order_index none =
    last (select (λ s. ltb s.order_index current_order_index) steps)
find_previous_step steps current_order_index (some id) =
    find (λ s. if s.id == id then ltb s.order_index current_order_index else false) steps
