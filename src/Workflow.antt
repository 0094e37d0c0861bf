-- ===== src/Workflow.antt =====
-- core/src/workflow.rs: what a workflow file must satisfy to be loaded.
pub mod Issues
pub mod Agents
pub mod Loops
pub mod Flows
pub mod Validate
pub mod Server
