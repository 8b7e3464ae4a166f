-- ===== src/Data/Workflow.antt =====
-- Workflow templates, instances and actions.
use fun_makers_system.Base.{ℕ, Bool, Option, List}
use fun_makers_system.Base.Text.{Text}

-- The `ApproverRule` union of packages/contracts/src/workflow.ts.
mutual
  pub data ApproverRule : Type 0 where
    role : ℕ → ApproverRule
    user : ℕ → ApproverRule
    project_role : ℕ → ApproverRule
    any_of : ApproverRules → ApproverRule

  pub data ApproverRules : Type 0 where
    no_rules : ApproverRules
    one_rule : ApproverRule → ApproverRules → ApproverRules

pub record WorkflowStep : Type 0 where
  pub id : ℕ
  pub order_index : ℕ
  pub name : ℕ
  pub approver_rule : ApproverRule
  pub sla_hours : Option ℕ
  pub is_optional : Bool

pub record WorkflowTemplate : Type 0 where
  pub id : ℕ
  pub code : ℕ
  pub record_type : ℕ
  pub version : ℕ
  pub is_active : Bool
  pub steps : List WorkflowStep

pub data WorkflowStatus : Type 0 where
  draft in_progress returned approved rejected cancelled completed on_hold : WorkflowStatus

pub record WorkflowInstance : Type 0 where
  pub id : ℕ
  pub org_id : ℕ
  pub template_id : ℕ
  pub record_type : ℕ
  pub record_id : ℕ
  pub project_id : ℕ
  pub status : WorkflowStatus
  pub current_step_id : Option ℕ
  pub started_by : ℕ
  pub started_at : ℕ
  pub completed_at : Option ℕ

pub data ActionKind : Type 0 where
  started approved rejected returned cancelled : ActionKind

pub data ResolutionSource : Type 0 where
  project_override entity_default system_default : ResolutionSource

-- `metadataJson`.
pub data Metadata : Type 0 where
  no_metadata : Metadata
  return_to_step : ℕ → Metadata
  resolution : ResolutionSource → Metadata

pub record WorkflowAction : Type 0 where
  pub instance_id : ℕ
  pub step_id : ℕ
  pub actor_user_id : ℕ
  pub action : ActionKind
  pub comment : Option Text
  pub acted_at : ℕ
  pub metadata : Metadata

pub record WorkflowTables : Type 0 where
  pub templates : List WorkflowTemplate
  pub instances : List WorkflowInstance
  pub actions : List WorkflowAction

pub data WorkflowEventName : Type 0 where
  workflow_started step_approved workflow_approved workflow_rejected : WorkflowEventName
  workflow_returned workflow_cancelled : WorkflowEventName

-- `WorkflowEventPayload`.
pub record WorkflowEvent : Type 0 where
  pub name : WorkflowEventName
  pub instance_id : ℕ
  pub template_code : ℕ
  pub record_type : ℕ
  pub record_id : ℕ
  pub project_id : ℕ
  pub actor_user_id : ℕ
  pub step_name : Option ℕ
  pub comment : Option Text
