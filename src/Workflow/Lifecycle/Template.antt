-- ===== src/Workflow/Lifecycle/Template.antt =====
-- Well-formed templates, and the steps of an instance that is loaded with one.
use fun_makers_system.Base.{
  update_where, ◌≢◌, find-update_where_self, find-update_where_ne, ℕ, ◌≡◌, some, List, arith, All,
  All-In, In, find, find-In, Option-cases, inl, inr, ◌==◌, DistinctKeys,
}
use fun_makers_system.Data.Workflow.{WorkflowTemplate, WorkflowInstance, WorkflowStep}
use fun_makers_system.Effects.{Db}
use fun_makers_system.Workflow.Order.{Loaded, find_loaded, order_by_index}
use fun_makers_system.Workflow.Order.Sorted.{
  Ascending, DistinctSteps, DistinctIds, order_by_index-Ascending, order_by_index-DistinctIds,
}

-- In each template no two steps share an order index or an id; template ids are a primary key.
pub record GoodTemplates (ts : List WorkflowTemplate) : Type 0 where
  pub distinct_steps : All (λ t. DistinctSteps t.steps) ts
  pub distinct_ids : DistinctKeys (λ t. t.id) ts

pub record GoodSteps (ss : List WorkflowStep) : Type 0 where
  pub ascending : Ascending ss
  pub distinct : DistinctIds ss

pub GoodTemplates-steps :
    (ts : List WorkflowTemplate) (t : WorkflowTemplate)
    → GoodTemplates ts
    → In t ts
    → GoodSteps (order_by_index t.steps)
GoodTemplates-steps ts t g m =
    let d = All-In (λ t. DistinctSteps t.steps) ts t g.distinct_steps m in
    record {
      ascending = order_by_index-Ascending t.steps d;
      distinct = order_by_index-DistinctIds t.steps d;
    }

-- What loading found.
pub record LoadedFrom (id : ℕ) (d : Db) (l : Loaded) : Type 0 where
  pub template : WorkflowTemplate
  pub row_found : find (λ i. i.id == id) d.workflow.instances ≡ some l.instance_row
  pub template_found :
      find (λ t. t.id == l.instance_row.template_id) d.workflow.templates ≡ some template
  pub code_eq : l.template_code ≡ template.code
  pub steps_eq : l.steps ≡ order_by_index template.steps

pub find_loaded-LoadedFrom :
    (id : ℕ) (d : Db) (l : Loaded) → find_loaded id d ≡ some l → LoadedFrom id d l
unfolding find_loaded
find_loaded-LoadedFrom id d l h =
    elim (Option-cases (find (λ i. i.id == id) d.workflow.instances)) [
      | inl n ↦ absurd (ground arith)
      | inr (i, e) ↦ elim (Option-cases (find (λ t. t.id == i.template_id) d.workflow.templates)) [
        | inl n ↦ absurd (ground arith)
        | inr (t, f) ↦ record {
          template = t;
          row_found = ground arith;
          template_found = ground arith;
          code_eq = ground arith;
          steps_eq = ground arith;
        }
      ]
    ]

pub loaded-GoodSteps :
    (id : ℕ) (d : Db) (l : Loaded)
    → GoodTemplates d.workflow.templates
    → find_loaded id d ≡ some l
    → GoodSteps l.steps
loaded-GoodSteps id d l g h =
    let v = find_loaded-LoadedFrom id d l h in
    let (m, k) =
      find-In (λ t. t.id == l.instance_row.template_id) d.workflow.templates v.template
        v.template_found in
    rw v.steps_eq (GoodTemplates-steps d.workflow.templates v.template g m)

-- The loaded instance after its row has been changed, by a change that keeps its id and template.
pub find_loaded-changed :
    (id : ℕ) (d d' : Db) (f : WorkflowInstance → WorkflowInstance) (l l' : Loaded)
    → ((i : WorkflowInstance) → (f i).id ≡ i.id)
    → ((i : WorkflowInstance) → (f i).template_id ≡ i.template_id)
    → d'.workflow.templates ≡ d.workflow.templates
    → d'.workflow.instances ≡ update_where (λ i. i.id == id) f d.workflow.instances
    → find_loaded id d ≡ some l
    → find_loaded id d' ≡ some l'
    → (l'.instance_row ≡ f l.instance_row) × (l'.steps ≡ l.steps)
find_loaded-changed id d d' f l l' keep_id keep_template et ei h h' =
    let v = find_loaded-LoadedFrom id d l h in
    let v' = find_loaded-LoadedFrom id d' l' h' in
    let row : l'.instance_row ≡ f l.instance_row = ground (
      arith,
      v.row_found,
      v'.row_found,
      ei,
      find-update_where_self (λ i. i.id) id f keep_id d.workflow.instances,
    ) in
    (
      row,
      ground (
        arith,
        row,
        keep_template l.instance_row,
        v.template_found,
        v'.template_found,
        v.steps_eq,
        v'.steps_eq,
        et,
      ),
    )

-- The rows of other instances stay.
pub find_loaded-other :
    (id k : ℕ) (d d' : Db) (f : WorkflowInstance → WorkflowInstance)
    → k ≢ id
    → ((i : WorkflowInstance) → (f i).id ≡ i.id)
    → d'.workflow.templates ≡ d.workflow.templates
    → d'.workflow.instances ≡ update_where (λ i. i.id == id) f d.workflow.instances
    → find_loaded k d' ≡ find_loaded k d
unfolding find_loaded
find_loaded-other id k d d' f ne keep_id et ei =
    rw (ei, et) (rw (find-update_where_ne (λ i. i.id) k id f ne keep_id d.workflow.instances))
