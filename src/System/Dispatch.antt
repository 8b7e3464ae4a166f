-- ===== src/System/Dispatch.antt =====
-- The delivery of events: what it writes is vouched for by the events.
use fun_makers_system.Base.{
  ◌≡◌, refl, inl, inr, Bool, true, false, some, List, [], ◌∷◌, arith, All, Option-cases,
}
use fun_makers_system.Data.Records.{RecordType}
use fun_makers_system.Data.Workflow.{WorkflowEvent, WorkflowEventName}
use fun_makers_system.Effects.{Db, pure}
use fun_makers_system.Effects.Keeps.{Keeps, bind-Keeps, try_catch-Keeps}
use fun_makers_system.Posting.Registry.{Registry}
use fun_makers_system.Workflow.Bus.{
  Handler, Subscription, dispatch, dispatch_all, call_if, same_name,
}
use fun_makers_system.Convergence.Dispatch.{
  wired_type, on_workflow_approved, on_workflow_returned, on_workflow_rejected, convergence_bus,
}
use fun_makers_system.System.{Backing}
use fun_makers_system.System.Backed.{Held}
use fun_makers_system.System.Reactions.{approved-Held, returned-Held, rejected-Held}

-- An approval event names a record that has an approved instance.
abbrev pub Vouched : Db → WorkflowEvent → Type 0
Vouched base e =
    e.name ≡ WorkflowEventName.workflow_approved
    → (kind : RecordType) → wired_type e.record_type ≡ some kind
    → Backing kind e.record_id base

module _ (base : Db) where
  on_approved-Held :
      (reg : Registry) (e : WorkflowEvent)
      → e.name ≡ WorkflowEventName.workflow_approved
      → Vouched base e
      → Keeps (Held base) (on_workflow_approved reg e)
  unfolding on_workflow_approved
  on_approved-Held reg e n v w h = elim (Option-cases (wired_type e.record_type)) [
    | inl y ↦ rw y h
    | inr (k, y) ↦ rw y (approved-Held base reg k e (v n k y) w h)
  ]

  on_returned-Held : (e : WorkflowEvent) → Keeps (Held base) (on_workflow_returned e)
  unfolding on_workflow_returned
  on_returned-Held e w h = elim (Option-cases (wired_type e.record_type)) [
    | inl y ↦ rw y h
    | inr (k, y) ↦ rw y (returned-Held base k e w h)
  ]

  on_rejected-Held : (e : WorkflowEvent) → Keeps (Held base) (on_workflow_rejected e)
  unfolding on_workflow_rejected
  on_rejected-Held e w h = elim (Option-cases (wired_type e.record_type)) [
    | inl y ↦ rw y h
    | inr (k, y) ↦ rw y (rejected-Held base k e w h)
  ]

  -- Subscriptions that keep what they may be called with.
  abbrev SafeOn : WorkflowEvent → Subscription → Type 0
  SafeOn e s = same_name s.event e.name ≡ true → Keeps (Held base) (s.handler e)

  call_if-Held :
      (b : Bool) (f : Handler) (e : WorkflowEvent)
      → (b ≡ true → Keeps (Held base) (f e))
      → Keeps (Held base) (call_if b f e)
  call_if-Held true f e h = try_catch-Keeps (Held base) (f e) (λ x. pure tt) (h refl) (λ x w k. k)
  call_if-Held false f e h = λ w k. k

  dispatch-Held :
      (bus : List Subscription) (e : WorkflowEvent)
      → All (SafeOn e) bus
      → Keeps (Held base) (dispatch bus e)
  unfolding dispatch
  dispatch-Held [] e h = λ w k. k
  dispatch-Held (s ∷ bus) e h =
      bind-Keeps (Held base) (call_if (same_name s.event e.name) s.handler e) (λ x. dispatch bus e)
        (call_if-Held (same_name s.event e.name) s.handler e h.0) (λ x. dispatch-Held bus e h.1)

  approved_name :
      (n : WorkflowEventName)
      → same_name WorkflowEventName.workflow_approved n ≡ true
      → n ≡ WorkflowEventName.workflow_approved
  approved_name n h = ground arith

  convergence_bus-Safe :
      (reg : Registry) (e : WorkflowEvent) → Vouched base e → All (SafeOn e) (convergence_bus reg)
  unfolding convergence_bus
  convergence_bus-Safe reg e v = (
    λ y. on_approved-Held reg e (approved_name e.name y) v,
    (λ y. on_returned-Held e, (λ y. on_rejected-Held e, tt)),
  )

  -- The delivery of events that are vouched for.
  pub dispatch_all-Held :
      (reg : Registry) (es : List WorkflowEvent)
      → All (Vouched base) es
      → Keeps (Held base) (dispatch_all (convergence_bus reg) es)
  unfolding dispatch_all
  dispatch_all-Held reg [] v = λ w k. k
  dispatch_all-Held reg (e ∷ es) v =
      bind-Keeps (Held base) (dispatch (convergence_bus reg) e)
        (λ x. dispatch_all (convergence_bus reg) es)
        (dispatch-Held (convergence_bus reg) e (convergence_bus-Safe reg e v.0))
        (λ x. dispatch_all-Held reg es v.1)
