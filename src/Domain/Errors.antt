-- ===== src/Domain/Errors.antt =====
-- internal/core/domain/errors.go: the sentinel errors, one constructor to a variable.
pub data DomainError : Type 0 where
  workflow_not_found : DomainError
  workflow_cannot_execute : DomainError
  invalid_definition : DomainError
  no_steps : DomainError
  execution_not_found : DomainError
  execution_not_running : DomainError
  execution_cannot_cancel : DomainError
  alert_not_found : DomainError
  alert_already_acknowledged : DomainError
  alert_already_resolved : DomainError
  alert_rule_not_found : DomainError
  invalid_condition_type : DomainError
  invalid_condition_config : DomainError
  invalid_operator : DomainError
  rule_on_cooldown : DomainError
  audit_log_not_found : DomainError
  metric_not_found : DomainError
  invalid_metric_query : DomainError
  invalid_metric_name : DomainError
  invalid_time_range : DomainError
  metric_definition_not_found : DomainError
  metric_definition_exists : DomainError
  invalid_metric_type : DomainError
  invalid_aggregation_type : DomainError
  batch_too_large : DomainError
  not_found : DomainError
  unauthorized : DomainError
  forbidden : DomainError
  internal : DomainError
