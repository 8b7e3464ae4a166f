-- ===== src/Workflow/Bus.antt =====
-- packages/core/src/workflow/events.ts: the event bus. A handler that throws is logged, and the next one
-- runs.
pub mod Total
use fun_makers_system.Base.{ℕ, Bool, true, false, List, [], ◌∷◌, ◌++◌, ◌==◌}
use fun_makers_system.Data.Workflow.{
  WorkflowEvent, WorkflowEventName, workflow_started, step_approved, workflow_approved,
  workflow_rejected, workflow_returned, workflow_cancelled,
}
use fun_makers_system.Effects.{Action, ◌>>◌, pure, try_catch}

abbrev pub Handler : Type 0
Handler = WorkflowEvent → Action (Unit {0})

pub record Subscription : Type 0 where
  pub event : WorkflowEventName
  pub handler : Handler

abbrev name_code : WorkflowEventName → ℕ
name_code workflow_started = 0
name_code step_approved = 1
name_code workflow_approved = 2
name_code workflow_rejected = 3
name_code workflow_returned = 4
name_code workflow_cancelled = 5

abbrev pub same_name : WorkflowEventName → WorkflowEventName → Bool
same_name a b = name_code a == name_code b

-- `on`: the handlers of an event run in the order of their registration.
abbrev pub on : WorkflowEventName → Handler → List Subscription → List Subscription
on event handler bus = bus ++ (record { event = event; handler = handler } ∷ [])

-- `try { await handler(payload) } catch { console.error }`
abbrev pub guarded_call : Handler → WorkflowEvent → Action (Unit {0})
guarded_call handler e = try_catch (handler e) (λ x. pure tt)

abbrev pub call_if : Bool → Handler → WorkflowEvent → Action (Unit {0})
call_if true handler e = guarded_call handler e
call_if false handler e = pure tt

-- `emit`: the handlers of the event's name, one after the other.
unfoldable pub dispatch : List Subscription → WorkflowEvent → Action (Unit {0})
dispatch [] e = pure tt
dispatch (s ∷ bus) e = call_if (same_name s.event e.name) s.handler e >> dispatch bus e

-- The events of one action, in the order in which it emitted them.
unfoldable pub dispatch_all : List Subscription → List WorkflowEvent → Action (Unit {0})
dispatch_all bus [] = pure tt
dispatch_all bus (e ∷ es) = dispatch bus e >> dispatch_all bus es
