-- ===== src/Tests.antt =====
-- Concrete runs of the theorems: one small tenant, its workflow, alert, rule and metrics.
pub mod Fixtures
pub mod Entities
pub mod Services
pub mod Metrics
pub mod Runs
pub mod Responses
pub mod Requests
pub mod Access
pub mod Serving
pub mod Storage
pub mod Table
pub mod Evaluating
