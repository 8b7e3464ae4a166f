-- ===== src/Workflow/Lifecycle/Coverage.antt =====
-- What an instance has behind it: every required step before its current one has been approved, and a
-- completed instance has had all of them.
use fun_makers_system.Base.{
  first, ◌≢◌, ℕ, ◌<◌, ◌≤◌, ◌≡◌, refl, sym, ◌∙◌, inl, inr, true, false, Option, some, none, List, [],
  ◌∷◌, ◌++◌, arith, In, find, find-In, ◌==◌, find-by_key, Option-cases, Bool-cases, leb, ◌⊎◌, ap,
}
use fun_makers_system.Data.Workflow.{
  WorkflowStep, WorkflowAction, ActionKind, in_progress, approved,
}
use fun_makers_system.Workflow.Order.{
  Loaded, find_current_step, find_next_step, find_previous_step, is_step,
}
use fun_makers_system.Workflow.Order.Sorted.{Ascending, same_index, first_least}
use fun_makers_system.Workflow.Order.InOrder.{Ascending-InOrder}
use fun_makers_system.Workflow.Order.Next.{
  first-In, find_next_step_later, next_before_required, find_next_step-none,
  find_previous_step_earlier,
}
use fun_makers_system.Workflow.Steps.{is_live, approve_instance, return_instance}
use fun_makers_system.Workflow.Lifecycle.Template.{GoodSteps}

-- The log holds an approval of the step for the instance.
abbrev pub HasApproval : ℕ → ℕ → List WorkflowAction → Type 0
HasApproval id step_id [] = ⊥
HasApproval id step_id (a ∷ log) =
    ((a.instance_id ≡ id) × (a.step_id ≡ step_id) × (a.action ≡ ActionKind.approved))
    ⊎ HasApproval id step_id log

pub HasApproval-append :
    (id step_id : ℕ) (log bs : List WorkflowAction)
    → HasApproval id step_id log
    → HasApproval id step_id (log ++ bs)
HasApproval-append id step_id [] bs h = absurd h
HasApproval-append id step_id (a ∷ log) bs (inl e) = inl e
HasApproval-append id step_id (a ∷ log) bs (inr h) = inr (HasApproval-append id step_id log bs h)

pub HasApproval-last :
    (id step_id : ℕ) (log : List WorkflowAction) (a : WorkflowAction)
    → a.instance_id ≡ id
    → a.step_id ≡ step_id
    → a.action ≡ ActionKind.approved
    → HasApproval id step_id (log ++ (a ∷ []))
HasApproval-last id step_id [] a e f g = inl (e, f, g)
HasApproval-last id step_id (b ∷ log) a e f g = inr (HasApproval-last id step_id log a e f g)

pub record Facts (id : ℕ) (l : Loaded) (log : List WorkflowAction) : Type 0 where
  -- Every required step before the current one has been approved.
  pub walked :
      (c s : WorkflowStep)
      → find_current_step l ≡ some c
      → In s l.steps
      → s.is_optional ≡ false
      → s.order_index < c.order_index
      → HasApproval id s.id log
  -- A completed instance has had all required approvals.
  pub finished :
      l.instance_row.status ≡ approved
      → (s : WorkflowStep) → In s l.steps
      → s.is_optional ≡ false
      → HasApproval id s.id log
  -- An instance that is live stands at a step of its template.
  pub placed :
      is_live l.instance_row.status ≡ true → (c : WorkflowStep) × (find_current_step l ≡ some c)

find-none_false : (ss : List WorkflowStep) → find (λ s. is_step none s.id) ss ≡ none
find-none_false [] = refl
find-none_false (s ∷ ss) = find-none_false ss

nowhere : (l : Loaded) → l.instance_row.current_step_id ≡ none → find_current_step l ≡ none
unfolding find_current_step
nowhere l e = rw e (find-none_false l.steps)

-- The current step once the pointer has been moved to a step of the template.
moved :
    (l : Loaded) (n : WorkflowStep)
    → GoodSteps l.steps
    → In n l.steps
    → l.instance_row.current_step_id ≡ some n.id
    → find_current_step l ≡ some n
unfolding find_current_step
moved l n g m e = rw e (flip l.steps (find-by_key (λ s. s.id) l.steps n g.distinct m))
  where
    flip :
        (ss : List WorkflowStep)
        → find (λ s. s.id == n.id) ss ≡ some n
        → find (λ s. n.id == s.id) ss ≡ some n
    flip [] q = cc
    flip (s ∷ ss) q = ground (arith, flip ss)

current-In :
    (l : Loaded) (c : WorkflowStep)
    → find_current_step l ≡ some c
    → In c l.steps × (is_step l.instance_row.current_step_id c.id ≡ true)
unfolding find_current_step
current-In l c e = find-In (λ s. is_step l.instance_row.current_step_id s.id) l.steps c e

-- A required step before the next one is not after the current one.
before_next :
    (ss : List WorkflowStep) (k : ℕ) (n s : WorkflowStep)
    → Ascending ss
    → find_next_step ss k ≡ some n
    → In s ss
    → s.is_optional ≡ false
    → s.order_index < n.order_index
    → s.order_index ≤ k
before_next ss k n s asc e m r lt = elim (Bool-cases (leb s.order_index k)) [
  | inl le ↦ ground arith
  | inr gt ↦
      let late : k < s.order_index = ground arith in
      let ge = next_before_required ss k n s (Ascending-InOrder ss asc) e m r late in
      absurd (omega arith)
]

-- After an approval of the current step, all required steps up to it are approved.
module _ (id : ℕ) (l : Loaded) (c : WorkflowStep) (log : List WorkflowAction) (a : WorkflowAction)
    (good : GoodSteps l.steps) (facts : Facts id l log) (current : find_current_step l ≡ some c)
    (by : a.instance_id ≡ id) (at_step : a.step_id ≡ c.id)
    (kind : a.action ≡ ActionKind.approved) where
  approved_upto :
      (s : WorkflowStep)
      → In s l.steps
      → s.is_optional ≡ false
      → s.order_index ≤ c.order_index
      → HasApproval id s.id (log ++ (a ∷ []))
  approved_upto s m r le = elim (split s le) [
    | inl lt ↦ HasApproval-append id s.id log (a ∷ []) (facts.walked c s current m r lt)
    | inr e ↦
        let q = same_index l.steps s c good.ascending m (current-In l c current).0 e in
        HasApproval-last id s.id log a by (at_step ∙ ap (λ (t : WorkflowStep). t.id) (sym q)) kind
  ]
    where
      split :
          (s : WorkflowStep)
          → s.order_index ≤ c.order_index
          → (s.order_index < c.order_index) ⊎ (s.order_index ≡ c.order_index)
      split s le = ground arith

  pub approve-Facts :
      (at : ℕ) (l' : Loaded)
      → l'.steps ≡ l.steps
      → l'.instance_row ≡ approve_instance (find_next_step l.steps c.order_index) at l.instance_row
      → Facts id l' (log ++ (a ∷ []))
  approve-Facts at l' es er = elim (Option-cases (find_next_step l.steps c.order_index)) [
    | inl n ↦ completed l' es (rw n at er) n
    | inr (n, e) ↦ advanced l' es n (rw e at er) e
  ]
    where
      completed :
          (l' : Loaded)
          → l'.steps ≡ l.steps
          → l'.instance_row ≡ approve_instance none at l.instance_row
          → find_next_step l.steps c.order_index ≡ none
          → Facts id l' (log ++ (a ∷ []))
      completed l' es er n = record {
        walked = λ x s e m r lt. absurd (cc (nowhere l' (rw er), e));
        finished = λ e s m r.
            approved_upto s (rw es at m) r
              (find_next_step-none l.steps c.order_index s n (rw es at m));
        placed = λ e. ground arith;
      }

      advanced :
          (l' : Loaded)
          → l'.steps ≡ l.steps
          → (n : WorkflowStep) → l'.instance_row ≡ approve_instance (some n) at l.instance_row
          → find_next_step l.steps c.order_index ≡ some n
          → Facts id l' (log ++ (a ∷ []))
      advanced l' es n er e =
          let (m, lt) = find_next_step_later l.steps c.order_index n e in
          let here = moved l' n (rw es good) (rw es m) (rw er) in
          record {
            walked = λ x s f k r before.
                let q : x ≡ n = ground (arith, here, f) in
                approved_upto s (rw es at k) r (
                  before_next l.steps c.order_index n s good.ascending e (rw es at k) r
                    (rw q at before));
            finished = λ f s k r. absurd (ground arith);
            placed = λ f. (n, here);
          }

-- A return takes the instance back to an earlier step; what lies before that one is approved.
pub return-Facts :
    (id : ℕ) (l l' : Loaded) (c t : WorkflowStep) (to : Option ℕ) (log : List WorkflowAction)
    (a : WorkflowAction)
    → GoodSteps l.steps
    → Facts id l log
    → find_current_step l ≡ some c
    → find_previous_step l.steps c.order_index to ≡ some t
    → l'.steps ≡ l.steps
    → l'.instance_row ≡ return_instance t.id l.instance_row
    → Facts id l' (log ++ (a ∷ []))
return-Facts id l l' c t to log a good facts current e es er =
    let (m, lt) = find_previous_step_earlier l.steps c.order_index to t e in
    let here = moved l' t (rw es good) (rw es m) (rw er) in
    record {
      walked = λ x s f k r before.
          let q : x ≡ t = ground (arith, here, f) in
          let lt' : s.order_index < t.order_index = rw q at before in
          HasApproval-append id s.id log (a ∷ [])
            (facts.walked c s current (rw es at k) r (omega arith));
      finished = λ f s k r. absurd (ground arith);
      placed = λ f. (t, here);
    }

-- A rejected or cancelled instance keeps its step.
pub closed-Facts :
    (id : ℕ) (l l' : Loaded) (log : List WorkflowAction) (a : WorkflowAction)
    → Facts id l log
    → l'.steps ≡ l.steps
    → l'.instance_row.current_step_id ≡ l.instance_row.current_step_id
    → is_live l'.instance_row.status ≡ false
    → l'.instance_row.status ≢ approved
    → Facts id l' (log ++ (a ∷ []))
unfolding find_current_step
closed-Facts id l l' log a facts es er dead not_approved = record {
  walked = λ x s f k r before.
      HasApproval-append id s.id log (a ∷ [])
        (facts.walked x s (rw (es, er) at f) (rw es at k) r before);
  finished = λ f s k r. absurd (not_approved f);
  placed = λ f. absurd (ground arith);
}

-- More rows in the log take nothing away.
pub Facts-append :
    (id : ℕ) (l : Loaded) (log more : List WorkflowAction)
    → Facts id l log
    → Facts id l (log ++ more)
Facts-append id l log more facts = record {
  walked = λ c s f k r before. HasApproval-append id s.id log more (facts.walked c s f k r before);
  finished = λ f s k r. HasApproval-append id s.id log more (facts.finished f s k r);
  placed = facts.placed;
}

-- A new instance stands at the first step, before which there is none.
pub start-Facts :
    (id : ℕ) (l : Loaded) (n : WorkflowStep) (log : List WorkflowAction)
    → GoodSteps l.steps
    → first l.steps ≡ some n
    → l.instance_row.current_step_id ≡ some n.id
    → l.instance_row.status ≡ in_progress
    → Facts id l log
start-Facts id l n log g f e st =
    let here = moved l n g (first-In l.steps n f) e in
    record {
      walked = λ c s h k r before.
          let q : c ≡ n = ground (arith, here, h) in
          let le = first_least l.steps n s g.ascending f k in
          let lt : s.order_index < n.order_index = rw q at before in absurd (omega arith);
      finished = λ h s k r. absurd (ground arith);
      placed = λ h. (n, here);
    }
