-- ===== src/Workflow/Order/InOrder.antt =====
-- Steps in their order where two of them may share an index: what `orderBy: { orderIndex: 'asc' }`
-- gives for any steps, and the first step that passes a test.
use fun_makers_system.Base.{
  ◌≤◌, inl, inr, ◌⊎◌, All-map, All-select, ◌<◌, ◌≡◌, Bool, true, List, [], ◌∷◌, some, arith, All,
  All-In, In, find, select, Bool-cases, leb,
}
use fun_makers_system.Data.Workflow.{WorkflowStep}
use fun_makers_system.Workflow.Order.{insert_step, order_by_index}
use fun_makers_system.Workflow.Order.Sorted.{Ascending, All-insert_step}

-- The order indices never fall.
abbrev pub InOrder : List WorkflowStep → Type 0
InOrder [] = Unit
InOrder (s ∷ ss) = All (λ t. s.order_index ≤ t.order_index) ss × InOrder ss

insert_step-InOrder :
    (s : WorkflowStep) (ss : List WorkflowStep) → InOrder ss → InOrder (insert_step s ss)
insert_step-InOrder s [] h = (tt, tt)
insert_step-InOrder s (t ∷ ts) h = elim (Bool-cases (leb s.order_index t.order_index)) [
  | inl e ↦
      let le : s.order_index ≤ t.order_index = ground arith in
      rw e (
        (
          le,
          All-map (λ u. t.order_index ≤ u.order_index) (λ u. s.order_index ≤ u.order_index)
              (λ u k. omega arith) ts h.0,
        ),
        h,
      )
  | inr e ↦
      let le : t.order_index ≤ s.order_index = ground arith in
      rw e (
        All-insert_step (λ u. t.order_index ≤ u.order_index) s ts le h.0,
        insert_step-InOrder s ts h.1,
      )
]

-- Sorting never leaves a step before one of a lesser index.
pub order_by_index-InOrder : (ss : List WorkflowStep) → InOrder (order_by_index ss)
unfolding order_by_index
order_by_index-InOrder [] = tt
order_by_index-InOrder (s ∷ ss) =
    insert_step-InOrder s (order_by_index ss) (order_by_index-InOrder ss)

insert_step-In :
    (s t : WorkflowStep) (ss : List WorkflowStep) → (s ≡ t) ⊎ In s ss → In s (insert_step t ss)
insert_step-In s t [] (inl e) = inl (ground arith)
insert_step-In s t [] (inr m) = absurd m
insert_step-In s t (x ∷ xs) (inl e) = elim (Bool-cases (leb t.order_index x.order_index)) [
  | inl y ↦ rw y (inl e)
  | inr n ↦ rw n (inr (insert_step-In s t xs (inl e)))
]
insert_step-In s t (x ∷ xs) (inr (inl e)) = elim (Bool-cases (leb t.order_index x.order_index)) [
  | inl y ↦ rw y (inr (inl e))
  | inr n ↦ rw n (inl e)
]
insert_step-In s t (x ∷ xs) (inr (inr m)) = elim (Bool-cases (leb t.order_index x.order_index)) [
  | inl y ↦ rw y (inr (inr m))
  | inr n ↦ rw n (inr (insert_step-In s t xs (inr m)))
]

-- Sorting drops no step.
pub order_by_index-In :
    (s : WorkflowStep) (ss : List WorkflowStep) → In s ss → In s (order_by_index ss)
unfolding order_by_index
order_by_index-In s [] m = absurd m
order_by_index-In s (t ∷ ts) (inl e) = insert_step-In s t (order_by_index ts) (inl e)
order_by_index-In s (t ∷ ts) (inr m) =
    insert_step-In s t (order_by_index ts) (inr (order_by_index-In s ts m))

pub Ascending-InOrder : (ss : List WorkflowStep) → Ascending ss → InOrder ss
Ascending-InOrder [] h = tt
Ascending-InOrder (s ∷ ss) h = (
  All-map (λ t. s.order_index < t.order_index) (λ t. s.order_index ≤ t.order_index)
      (λ t k. omega arith) ss h.0,
  Ascending-InOrder ss h.1,
)

pub select-InOrder :
    (p : WorkflowStep → Bool) (ss : List WorkflowStep) → InOrder ss → InOrder (select p ss)
select-InOrder p [] h = tt
select-InOrder p (s ∷ ss) h = elim (Bool-cases (p s)) [
  | inl y ↦ rw y (All-select (λ t. s.order_index ≤ t.order_index) p ss h.0, select-InOrder p ss h.1)
  | inr n ↦ rw n (select-InOrder p ss h.1)
]

-- The first step that passes has the least index of those that pass.
pub find_least :
    (p : WorkflowStep → Bool) (ss : List WorkflowStep) (n s : WorkflowStep)
    → InOrder ss
    → find p ss ≡ some n
    → In s ss
    → p s ≡ true
    → n.order_index ≤ s.order_index
find_least p [] n s h e m t = absurd m
find_least p (x ∷ xs) n s h e (inl q) t =
    let y : p x ≡ true = rw q at t in let r : x ≡ n = ground arith in rw (q, r) (omega arith)
find_least p (x ∷ xs) n s h e (inr m) t = elim (Bool-cases (p x)) [
  | inl y ↦
      let r : x ≡ n = ground arith in
      let le : x.order_index ≤ s.order_index =
        All-In (λ u. x.order_index ≤ u.order_index) xs s h.0 m in
      rw (← r) (omega arith)
  | inr f ↦ find_least p xs n s h.1 (rw f at e) m t
]
