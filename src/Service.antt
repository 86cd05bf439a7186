-- ===== src/Service.antt =====
-- internal/core/service: the application services, one module to a file of the package. What is
-- proved about a service stands in its children.
pub mod Audit
pub mod Alert
pub mod Execution
pub mod Workflow
pub mod AlertRule
pub mod Metric
