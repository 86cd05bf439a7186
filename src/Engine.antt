-- ===== src/Engine.antt =====
-- internal/workflow: the interpreter that runs a workflow definition on Temporal.
pub mod Definition
pub mod Parsing
pub mod Step
pub mod Dispatch
pub mod Dynamic
pub mod Running
pub mod Outputs
