-- ===== src/Workflow.antt =====
-- packages/core/src/workflow: the approval engine. An instance walks the steps of a template; each
-- action of an approver is checked, written with its audit row in one transaction, and published.
pub mod Order
pub mod Approvers
pub mod Steps
pub mod Instances
pub mod Resolution
pub mod Sla
pub mod Bus
pub mod Lifecycle
