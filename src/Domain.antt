-- ===== src/Domain.antt =====
-- internal/core/domain: the entities and their rules, one module to a file of the package. What is
-- proved about a module stands in its children.
pub mod Errors
pub mod Values
pub mod Workflow
pub mod Execution
pub mod Alert
pub mod AlertRule
pub mod Audit
pub mod Metric
