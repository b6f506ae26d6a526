-- ===== src/Workflow.antt =====
-- The workflow runtime of crates/chat/src/assistant/workflow: its contract, the nodes of a run, the
-- durable state of a run, the scheduler and the loop that runs a workflow.
pub mod Contract
pub mod Redaction
pub mod Ledger
pub mod Compose
pub mod Budget
pub mod Schedule
pub mod Outputs
pub mod State
pub mod Runner
pub mod Verify
pub mod Compile
pub mod Graph
