-- ===== src/Http.antt =====
-- internal/adapter/driving/http: the handlers that call the services.
pub mod Pagination
pub mod Handling
pub mod Alerts
pub mod Executions
pub mod Workflows
pub mod Rules
pub mod AuditLogs
pub mod Definitions
pub mod Metrics
pub mod Guarding
pub mod Checking
