-- ===== src/Workflow/Order/Next.antt =====
-- Where `findNextStep` and the target of a return lie.
use fun_makers_system.Base.{
  In-select, select-In, ℕ, ◌<◌, ◌≤◌, ◌≡◌, inl, inr, Bool, true, false, not, List, [], ◌∷◌, Option,
  some, none, arith, In, find, first, last, select, find-In, find-none, Bool-cases, Option-cases,
  ltb, ◌==◌, if◌then◌else◌,
}
use fun_makers_system.Data.Workflow.{WorkflowStep}
use fun_makers_system.Workflow.Order.{or_else, order_by_index, find_next_step, find_previous_step}
use fun_makers_system.Workflow.Order.InOrder.{
  InOrder, order_by_index-InOrder, order_by_index-In, select-InOrder, find_least,
}

abbrev after : ℕ → WorkflowStep → Bool
after k s = ltb k s.order_index

abbrev required : WorkflowStep → Bool
required s = not s.is_optional

pub first-In : (ss : List WorkflowStep) (s : WorkflowStep) → first ss ≡ some s → In s ss
first-In [] s e = cc
first-In (x ∷ xs) s e = inl (ground arith)

last-In : (ss : List WorkflowStep) (s : WorkflowStep) → last ss ≡ some s → In s ss
last-In [] s e = cc
last-In (x ∷ []) s e = inl (ground arith)
last-In (x ∷ (y ∷ ys)) s e = inr (last-In (y ∷ ys) s e)

next-In-remaining :
    (r : List WorkflowStep) (n : WorkflowStep)
    → or_else (find required r) (first r) ≡ some n
    → In n r
next-In-remaining r n e = elim (Option-cases (find required r)) [
  | inl f ↦ first-In r n (rw f at e)
  | inr (m, f) ↦ (find-In required r n (ground arith)).0
]

-- The next step is a later step of the template.
pub find_next_step_later :
    (ss : List WorkflowStep) (k : ℕ) (n : WorkflowStep)
    → find_next_step ss k ≡ some n
    → In n ss × (k < n.order_index)
unfolding find_next_step
find_next_step_later ss k n e =
    let (m, t) = select-In (after k) ss n (next-In-remaining (select (after k) ss) n e) in
    (m, ground arith)

-- Of steps in order, the next one comes before every later step that is required.
pub next_before_required :
    (ss : List WorkflowStep) (k : ℕ) (n s : WorkflowStep)
    → InOrder ss
    → find_next_step ss k ≡ some n
    → In s ss
    → s.is_optional ≡ false
    → k < s.order_index
    → n.order_index ≤ s.order_index
unfolding find_next_step
next_before_required ss k n s ord e m r lt =
    let late : after k s ≡ true = ground arith in
    let req : required s ≡ true = rw r in
    let k' : In s (select (after k) ss) = In-select (after k) ss s m late in
    elim (Option-cases (find required (select (after k) ss))) [
      | inl f ↦ absurd (cc (find-none required (select (after k) ss) s f k', req))
      | inr (x, f) ↦
          let q : x ≡ n = ground arith in
          find_least required (select (after k) ss) n s (select-InOrder (after k) ss ord)
            (rw q at f) k' req
    ]

-- For the steps of any template, also one in which steps share an order index: a required step after the
-- current one never has a lesser index than the next step.
pub find_next_step_skips_no_required :
    (ss : List WorkflowStep) (k : ℕ) (n s : WorkflowStep)
    → find_next_step (order_by_index ss) k ≡ some n
    → In s ss
    → s.is_optional ≡ false
    → k < s.order_index
    → n.order_index ≤ s.order_index
find_next_step_skips_no_required ss k n s e m r lt =
    next_before_required (order_by_index ss) k n s (order_by_index-InOrder ss) e
      (order_by_index-In s ss m) r lt

-- There is no next step only where no step of the template is later.
pub find_next_step-none :
    (ss : List WorkflowStep) (k : ℕ) (s : WorkflowStep)
    → find_next_step ss k ≡ none
    → In s ss
    → s.order_index ≤ k
unfolding find_next_step
find_next_step-none ss k s e m = elim (Bool-cases (after k s)) [
  | inl late ↦ absurd (none_left (select (after k) ss) (In-select (after k) ss s m late) e)
  | inr early ↦ ground arith
]
  where
    none_left : (r : List WorkflowStep) → In s r → or_else (find required r) (first r) ≡ none → ⊥
    none_left [] i q = i
    none_left (x ∷ xs) i q = ground arith

-- A return goes to an earlier step of the template.
pub find_previous_step_earlier :
    (ss : List WorkflowStep) (k : ℕ) (to : Option ℕ) (t : WorkflowStep)
    → find_previous_step ss k to ≡ some t
    → In t ss × (t.order_index < k)
unfolding find_previous_step
find_previous_step_earlier ss k none t e =
    let (m, b) =
      select-In (λ s. ltb s.order_index k) ss t
        (last-In (select (λ s. ltb s.order_index k) ss) t e) in
    (m, ground arith)
find_previous_step_earlier ss k (some id) t e =
    let (m, b) = find-In (λ s. if s.id == id then ltb s.order_index k else false) ss t e in
    (m, ground arith)
