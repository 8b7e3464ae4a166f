-- ===== src/Workflow/Sla.antt =====
-- packages/core/src/workflow/instances.ts, `computeSlaInfo`: how long the current step has been
-- waiting, against its limit. Hours are rounded to hundredths, with exact arithmetic in place of
-- doubles; `isBreached` compares the unrounded times.
pub mod Breach
use fun_makers_system.Base.{
  ℕ, ◌*◌, ◌/◌, Bool, true, false, Option, none, some, List, if◌then◌else◌, select, last,
}
use fun_makers_system.Base.Int.{ℤ, pos, negsuc, ◌+ℤ◌, ◌-ℤ◌, ltb_ℤ}
use fun_makers_system.Data.Workflow.{
  WorkflowStep, WorkflowAction, ActionKind, started, approved, returned,
}
use fun_makers_system.Workflow.Order.{is_step}

pub record SlaInfo : Type 0 where
  pub current_step_sla_hours : Option ℕ
  pub current_step_started_at : ℕ
  pub hours_elapsed : ℤ
  pub hours_remaining : Option ℤ
  pub is_breached : Bool

-- `1000 * 60 * 60`
abbrev pub ms_per_hour : ℕ
ms_per_hour = 3600000

-- Division rounding down.
abbrev pub floor_div : ℤ → ℕ → ℤ
floor_div (pos n) k = pos (n / k)
floor_div (negsuc n) k = negsuc (n / k)

-- `Math.round(hours * 100)` of a time in milliseconds: a hundredth of an hour is 36000 ms.
unfoldable pub hundredths : ℤ → ℤ
hundredths ms = floor_div (ms +ℤ pos 18000) 36000

-- `['started', 'approved', 'returned'].includes(a.action)`
abbrev pub is_transition : ActionKind → Bool
is_transition started = true
is_transition approved = true
is_transition returned = true
is_transition _ = false

abbrev pub is_relevant : Option ℕ → WorkflowAction → Bool
is_relevant current a = if is_step current a.step_id then is_transition a.action else false

abbrev pub acted_or : Option WorkflowAction → ℕ → ℕ
acted_or none at = at
acted_or (some a) at = a.acted_at

abbrev pub remaining : Option ℕ → ℤ → Option ℤ
remaining none elapsed = none
remaining (some h) elapsed = some (hundredths (pos (h * ms_per_hour) -ℤ elapsed))

abbrev pub breached : Option ℕ → ℤ → Bool
breached none elapsed = false
breached (some h) elapsed = ltb_ℤ (pos (h * ms_per_hour)) elapsed

abbrev pub sla_info : Option ℕ → ℕ → ℕ → SlaInfo
sla_info sla_hours started_at at =
    let elapsed = pos at -ℤ pos started_at in
    record {
      current_step_sla_hours = sla_hours;
      current_step_started_at = started_at;
      hours_elapsed = hundredths elapsed;
      hours_remaining = remaining sla_hours elapsed;
      is_breached = breached sla_hours elapsed;
    }

-- The actions are the instance's, in the order of their times; `at` is the time of the
-- reading, one time for the two that the code takes in a row (the fallback's and the present one).
unfoldable pub compute_sla_info :
    Option ℕ → List WorkflowAction → Option WorkflowStep → ℕ → Option SlaInfo
compute_sla_info none actions step at = none
compute_sla_info (some id) actions none at = none
compute_sla_info (some id) actions (some step) at =
    some (sla_info step.sla_hours (acted_or (last (select (is_relevant (some id)) actions)) at) at)
