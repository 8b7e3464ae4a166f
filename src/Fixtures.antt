-- ===== src/Fixtures.antt =====
-- The data of the tests: a template of three steps, the second optional, a project with one member, and
-- a budget of one line.
use fun_makers_system.Base.{ℕ, ◌+◌, some, none, [], ◌∷◌, true, false}
use fun_makers_system.Base.Int.{pos}
use fun_makers_system.Data.Workflow.{WorkflowStep, WorkflowTemplate, user}
use fun_makers_system.Data.Records.{RecordType, RecordStatus}
use fun_makers_system.Effects.{World, Db}

abbrev pub step : ℕ → ℕ → WorkflowStep
step id index = record {
  id = id;
  order_index = index;
  name = id;
  approver_rule = user 7;
  sla_hours = some 24;
  is_optional = false;
}

abbrev pub first_step : WorkflowStep
first_step = step 11 1

abbrev pub optional_step : WorkflowStep
optional_step = record (step 12 2) { is_optional = true }

abbrev pub last_step : WorkflowStep
last_step = step 13 3

abbrev pub template : WorkflowTemplate
template = record {
  id = 1;
  code = 100;
  record_type = 6;
  version = 1;
  is_active = true;
  steps = last_step ∷ first_step ∷ optional_step ∷ [];
}

abbrev pub db : Db
db = record {
  audit = [];
  overrides = [];
  access = record {
    projects = record { id = 5; org_id = 1 } ∷ [];
    users = 7 ∷ [];
    roles = [];
    user_roles = [];
    assignments =
        record {
          user_id = 7;
          project_id = 5;
          role_id = 1;
          effective_from = 0;
          effective_to = none;
          revoked_at = none;
        }
        ∷ [];
  };
  workflow = record { templates = template ∷ []; instances = []; actions = [] };
  posting = record { events = []; exceptions = [] };
  budget = record {
    budgets = record { id = 30; project_id = 5 } ∷ [];
    lines =
        record {
          id = 31;
          budget_id = 30;
          category_id = 42;
          committed_amount = pos 500;
          actual_amount = pos 0;
        }
        ∷ [];
    procurement_categories = record { id = 41; code = 400 } ∷ [];
    budget_categories = record { id = 42; code = 400 } ∷ [];
    purchase_orders = record { id = 50; category_id = some 41; total_amount = pos 1000 } ∷ [];
    supplier_invoices =
        record { id = 60; category_id = none; total_amount = pos 700; purchase_order_id = some 50 }
        ∷ [];
    expenses = [];
    credit_notes = [];
    absorption_exceptions = [];
  };
  records = record {
    rows =
        record {
          kind = RecordType.purchase_order;
          id = 50;
          project_id = 5;
          entity_id = none;
          status = RecordStatus.draft;
          amount = pos 1000;
          drawing_id = none;
          details = 20;
        }
        ∷ [];
    drawings = [];
    quotations = [];
  };
  settings = record { settings = []; entities = []; defaults = [] };
}

abbrev pub world : World
world = record {
  db = db;
  emitted = [];
  tick = 0;
  env = record { fails = λ n. false; uuid = λ n. n + 1000; clock = λ n. n };
}
