-- ===== src/Workflow/Order/Sorted.antt =====
-- The order of a template's steps: what sorting gives, and where a step lies among them.
use fun_makers_system.Base.{
  first, ◌∙◌, ◌≤◌, inl, inr, DistinctKeys, All-map, ◌<◌, ◌≤◌, ◌≡◌, ◌≢◌, inl, inr, sym, List, [],
  ◌∷◌, some, arith, All, All-In, In, Bool-cases, leb,
}
use fun_makers_system.Data.Workflow.{WorkflowStep}
use fun_makers_system.Workflow.Order.{insert_step, order_by_index}

-- The order indices rise strictly.
abbrev pub Ascending : List WorkflowStep → Type 0
Ascending [] = Unit
Ascending (s ∷ ss) = All (λ t. s.order_index < t.order_index) ss × Ascending ss

-- No two steps share an order index, and none shares its id.
abbrev pub DistinctSteps : List WorkflowStep → Type 0
DistinctSteps [] = Unit
DistinctSteps (s ∷ ss) =
    All (λ t. (s.order_index ≢ t.order_index) × (s.id ≢ t.id)) ss × DistinctSteps ss

abbrev pub DistinctIds : List WorkflowStep → Type 0
DistinctIds = DistinctKeys (λ s. s.id)

pub All-insert_step :
    (P : WorkflowStep → Type 0) (s : WorkflowStep) (ss : List WorkflowStep)
    → P s
    → All P ss
    → All P (insert_step s ss)
All-insert_step P s [] p h = (p, tt)
All-insert_step P s (t ∷ ts) p h = ground (arith, All-insert_step P s ts p h.1)

All-order_by_index :
    (P : WorkflowStep → Type 0) (ss : List WorkflowStep) → All P ss → All P (order_by_index ss)
unfolding order_by_index
All-order_by_index P [] h = tt
All-order_by_index P (s ∷ ss) h =
    All-insert_step P s (order_by_index ss) h.0 (All-order_by_index P ss h.1)

insert_step-Ascending :
    (s : WorkflowStep) (ss : List WorkflowStep)
    → Ascending ss
    → All (λ t. s.order_index ≢ t.order_index) ss
    → Ascending (insert_step s ss)
insert_step-Ascending s [] h d = (tt, tt)
insert_step-Ascending s (t ∷ ts) h d = elim (Bool-cases (leb s.order_index t.order_index)) [
  | inl e ↦
      let lt : s.order_index < t.order_index = ground (arith, d.0) in
      rw e (
        (
          lt,
          All-map (λ u. t.order_index < u.order_index) (λ u. s.order_index < u.order_index)
              (λ u k. omega arith) ts h.0,
        ),
        h,
      )
  | inr e ↦
      let lt : t.order_index < s.order_index = ground arith in
      rw e (
        All-insert_step (λ u. t.order_index < u.order_index) s ts lt h.0,
        insert_step-Ascending s ts h.1 d.1,
      )
]

insert_step-DistinctIds :
    (s : WorkflowStep) (ss : List WorkflowStep)
    → DistinctIds ss
    → All (λ t. s.id ≢ t.id) ss
    → DistinctIds (insert_step s ss)
insert_step-DistinctIds s [] h d = (tt, tt)
insert_step-DistinctIds s (t ∷ ts) h d = elim (Bool-cases (leb s.order_index t.order_index)) [
  | inl e ↦ rw e (d, h)
  | inr e ↦ rw e (
    All-insert_step (λ u. t.id ≢ u.id) s ts (λ q. d.0 (sym q)) h.0,
    insert_step-DistinctIds s ts h.1 d.1,
  )
]

-- Sorting steps with distinct indices and ids gives strictly rising indices.
pub order_by_index-Ascending :
    (ss : List WorkflowStep) → DistinctSteps ss → Ascending (order_by_index ss)
unfolding order_by_index
order_by_index-Ascending [] h = tt
order_by_index-Ascending (s ∷ ss) h =
    insert_step-Ascending s (order_by_index ss) (order_by_index-Ascending ss h.1) (
      All-order_by_index (λ t. s.order_index ≢ t.order_index) ss
        (All-map (λ t. (s.order_index ≢ t.order_index) × (s.id ≢ t.id))
          (λ t. s.order_index ≢ t.order_index) (λ t k. k.0) ss h.0))

pub order_by_index-DistinctIds :
    (ss : List WorkflowStep) → DistinctSteps ss → DistinctIds (order_by_index ss)
unfolding order_by_index
order_by_index-DistinctIds [] h = tt
order_by_index-DistinctIds (s ∷ ss) h =
    insert_step-DistinctIds s (order_by_index ss) (order_by_index-DistinctIds ss h.1) (
      All-order_by_index (λ t. s.id ≢ t.id) ss
        (All-map (λ t. (s.order_index ≢ t.order_index) × (s.id ≢ t.id)) (λ t. s.id ≢ t.id)
          (λ t k. k.1) ss h.0))

-- The first step has the least index.
pub first_least :
    (ss : List WorkflowStep) (n s : WorkflowStep)
    → Ascending ss
    → first ss ≡ some n
    → In s ss
    → n.order_index ≤ s.order_index
first_least [] n s h e m = absurd m
first_least (x ∷ xs) n s h e (inl q) = let r : x ≡ n = ground arith in rw (q, r) (omega arith)
first_least (x ∷ xs) n s h e (inr m) =
    let r : x ≡ n = ground arith in
    let lt : x.order_index < s.order_index =
      All-In (λ u. x.order_index < u.order_index) xs s h.0 m in
    rw (← r) (omega arith)

-- Steps at one index are one step.
pub same_index :
    (ss : List WorkflowStep) (s t : WorkflowStep)
    → Ascending ss
    → In s ss
    → In t ss
    → s.order_index ≡ t.order_index
    → s ≡ t
same_index [] s t h m n e = absurd m
same_index (x ∷ xs) s t h (inl p) (inl q) e = p ∙ sym q
same_index (x ∷ xs) s t h (inl p) (inr n) e =
    let lt : x.order_index < t.order_index =
      All-In (λ u. x.order_index < u.order_index) xs t h.0 n in
    absurd (ground arith)
same_index (x ∷ xs) s t h (inr m) (inl q) e =
    let lt : x.order_index < s.order_index =
      All-In (λ u. x.order_index < u.order_index) xs s h.0 m in
    absurd (ground arith)
same_index (x ∷ xs) s t h (inr m) (inr n) e = same_index xs s t h.1 m n e
