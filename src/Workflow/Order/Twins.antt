-- ===== src/Workflow/Order/Twins.antt =====
-- Steps that share an order index. Nothing in the template service refuses them.
use fun_makers_system.Base.{◌≡◌, ◌≢◌, ◌≤◌, some, none, List, arith, All, ltb, [], ◌∷◌, select, refl}
use fun_makers_system.Data.Workflow.{WorkflowStep}
use fun_makers_system.Workflow.Order.{find_next_step}
use fun_makers_system.Workflow.Order.Next.{find_next_step_later}

-- The next step never has the order index of the current one: a second required step at that index is
-- passed over, and where no step has a greater index the workflow completes without it.
pub find_next_step_passes_over_twin :
    (ss : List WorkflowStep) (c twin : WorkflowStep)
    → twin.order_index ≡ c.order_index
    → (find_next_step ss c.order_index ≢ some twin)
      × (All (λ s. s.order_index ≤ c.order_index) ss → find_next_step ss c.order_index ≡ none)
unfolding find_next_step
find_next_step_passes_over_twin ss c twin e = (λ h. not_next h, λ h. nothing_left ss h)
  where
    not_next : find_next_step ss c.order_index ≡ some twin → ⊥
    not_next h = let (m, lt) = find_next_step_later ss c.order_index twin h in absurd (omega arith)

    no_later :
        (ss : List WorkflowStep)
        → All (λ s. s.order_index ≤ c.order_index) ss
        → select (λ s. ltb c.order_index s.order_index) ss ≡ []
    no_later [] h = refl
    no_later (s ∷ ss) h = ground (arith, no_later ss h.1)

    nothing_left :
        (ss : List WorkflowStep)
        → All (λ s. s.order_index ≤ c.order_index) ss
        → find_next_step ss c.order_index ≡ none
    nothing_left ss h = rw (no_later ss h)
