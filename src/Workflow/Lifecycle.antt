-- ===== src/Workflow/Lifecycle.antt =====
-- Requests to the engine, in any order and by anybody, and what a run of them is.
pub mod Template
pub mod Coverage
pub mod Invariant
pub mod Starts
pub mod Runs
use fun_makers_system.Base.{ℕ, Option, List, [], ◌∷◌}
use fun_makers_system.Base.Text.{Text}
use fun_makers_system.Effects.{World}
use fun_makers_system.Workflow.Steps.{approve_step, reject_step, return_step, cancel_instance}
use fun_makers_system.Workflow.Instances.{StartParams, start_instance}

pub data Request : Type 0 where
  approve : ℕ → ℕ → ℕ → Option Text → Request
  reject : ℕ → ℕ → ℕ → Text → Request
  return_to : ℕ → ℕ → ℕ → Text → Option ℕ → Request
  cancel : ℕ → ℕ → Text → Request
  start : StartParams → Request

-- The world after a request, whether it was granted or refused.
unfoldable pub perform : Request → World → World
perform (approve id step_id actor comment) w = (approve_step id step_id actor comment w).1
perform (reject id step_id actor comment) w = (reject_step id step_id actor comment w).1
perform (return_to id step_id actor comment to) w = (return_step id step_id actor comment to w).1
perform (cancel id actor reason) w = (cancel_instance id actor reason w).1
perform (start p) w = (start_instance p w).1

unfoldable pub perform_all : List Request → World → World
perform_all [] w = w
perform_all (r ∷ rs) w = perform_all rs (perform r w)
