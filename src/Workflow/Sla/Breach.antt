-- ===== src/Workflow/Sla/Breach.antt =====
-- When `computeSlaInfo` reports a breach.
use fun_makers_system.Base.{
  ℕ, ◌≡◌, ◌+◌, ◌*◌, ◌<◌, ◌↔◌, ◌≢◌, ◌⊎◌, inl, inr, some, true, false, List, [], ◌∷◌, ◌++◌, arith,
  All, refl, select, last, Bool-cases,
}
use fun_makers_system.Base.Int.{◌-ℤ◌}
use fun_makers_system.Data.Workflow.{
  WorkflowStep, WorkflowAction, ActionKind, started, approved, rejected, returned, cancelled,
}
use fun_makers_system.Workflow.Sla.{compute_sla_info, is_relevant, is_transition, sla_info, SlaInfo}

-- Whether the action puts the instance on a step: a start, an approval or a return.
abbrev pub Moves : ActionKind → Type 0
Moves started = Unit
Moves approved = Unit
Moves rejected = ⊥
Moves returned = Unit
Moves cancelled = ⊥

relevant :
    (id : ℕ) (a : WorkflowAction) → a.step_id ≡ id → Moves a.action → is_relevant (some id) a ≡ true
relevant id a e m = ground (arith, by_kind a.action m)
  where
    by_kind : (k : ActionKind) → Moves k → is_transition k ≡ true
    by_kind started m = refl
    by_kind approved m = refl
    by_kind rejected m = absurd m
    by_kind returned m = refl
    by_kind cancelled m = absurd m

irrelevant :
    (id : ℕ) (a : WorkflowAction)
    → (a.step_id ≢ id) ⊎ (¬ Moves a.action)
    → is_relevant (some id) a ≡ false
irrelevant id a (inl ne) = ground arith
irrelevant id a (inr n) = ground (arith, by_kind a.action n)
  where
    by_kind : (k : ActionKind) → (¬ Moves k) → is_transition k ≡ false
    by_kind started n = absurd (n tt)
    by_kind approved n = absurd (n tt)
    by_kind rejected n = refl
    by_kind returned n = absurd (n tt)
    by_kind cancelled n = refl

none_relevant :
    (id : ℕ) (log : List WorkflowAction)
    → All (λ a. (a.step_id ≢ id) ⊎ (¬ Moves a.action)) log
    → select (is_relevant (some id)) log ≡ []
none_relevant id [] h = refl
none_relevant id (a ∷ log) h = rw (irrelevant id a h.0) (none_relevant id log h.1)

last-cons :
    (x a : WorkflowAction) (xs : List WorkflowAction) → last xs ≡ some a → last (x ∷ xs) ≡ some a
last-cons x a [] e = cc
last-cons x a (y ∷ ys) e = e

last_relevant :
    (id : ℕ) (before later : List WorkflowAction) (a : WorkflowAction)
    → is_relevant (some id) a ≡ true
    → select (is_relevant (some id)) later ≡ []
    → last (select (is_relevant (some id)) (before ++ (a ∷ later))) ≡ some a
last_relevant id [] later a t n = rw (t, n) refl
last_relevant id (x ∷ xs) later a t n = elim (Bool-cases (is_relevant (some id) x)) [
  | inl y ↦ rw y (
      last-cons x a (select (is_relevant (some id)) (xs ++ (a ∷ later)))
        (last_relevant id xs later a t n))
  | inr f ↦ rw f (last_relevant id xs later a t n)
]

-- Let `a` be the last start, approval or return on the current step in the log, and `h` the step's
-- limit: the step counts from the time of `a`, and a breach is reported exactly when more than `h` hours
-- of 3600000 milliseconds have passed since then. Rejections, cancellations and actions on other steps
-- make no difference.
pub compute_sla_info_breached_iff :
    (id h at : ℕ) (before later : List WorkflowAction) (a : WorkflowAction) (s : WorkflowStep)
    (i : SlaInfo)
    → s.sla_hours ≡ some h
    → a.step_id ≡ id
    → Moves a.action
    → All (λ b. (b.step_id ≢ id) ⊎ (¬ Moves b.action)) later
    → compute_sla_info (some id) (before ++ (a ∷ later)) (some s) at ≡ some i
    → (i.current_step_started_at ≡ a.acted_at)
      × ((i.is_breached ≡ true) ↔ (a.acted_at + h * 3600000 < at))
unfolding compute_sla_info ◌-ℤ◌
compute_sla_info_breached_iff id h at before later a s i limit on m quiet e =
    let r = last_relevant id before later a (relevant id a on m) (none_relevant id later quiet) in
    let q : sla_info (some h) a.acted_at at ≡ i = ground (arith, rw (r, limit) at e) in
    (rw (← q) refl, rw (← q) (λ b. ground arith, λ k. ground arith))

no_relevant :
    (id : ℕ) (log : List WorkflowAction)
    → All (λ a. a.step_id ≢ id) log
    → select (is_relevant (some id)) log ≡ []
no_relevant id [] h = refl
no_relevant id (a ∷ log) h = ground (arith, no_relevant id log h.1)

-- An action carries the id of the step that it was taken on, not of the step that it led to. So a
-- current step on which nothing was done yet is never reported as breached, however long it waits.
pub compute_sla_info_untouched_never_breached :
    (id : ℕ) (log : List WorkflowAction) (s : WorkflowStep) (at : ℕ)
    → All (λ a. a.step_id ≢ id) log
    → compute_sla_info (some id) log (some s) at ≡ some (sla_info s.sla_hours at at)
      × ((sla_info s.sla_hours at at).is_breached ≡ false)
unfolding compute_sla_info ◌-ℤ◌
compute_sla_info_untouched_never_breached id log s at h = (rw (no_relevant id log h), ground arith)
