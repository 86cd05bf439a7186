-- ===== src/Port/Call.antt =====
-- internal/core/port/secondary.go: the calls of the driven adapters, and the interfaces.
use orchestrix_api.Common.{ℕ, String, Bool, Option, List, ℤ}
use orchestrix_api.Fault.{Error, Result}
use orchestrix_api.Domain.Values.{Uuid, Time, Float64}
use orchestrix_api.Domain.Workflow.{Workflow}
use orchestrix_api.Domain.Execution.{Execution}
use orchestrix_api.Domain.Alert.{Alert}
use orchestrix_api.Domain.AlertRule.{AlertRule}
use orchestrix_api.Domain.Audit.{AuditLog}
use orchestrix_api.Domain.Metric.{
  Metric, MetricDefinition, MetricQuery, MetricAggregate, TimeBucket,
}

-- Work that a service leaves to a goroutine.
pub data Background : Type 0 where
  evaluate_alerts : Uuid → String → Float64 → Background
  evaluate_batch_alerts : Uuid → List (String × Float64) → Background

-- One call of an adapter. A write carries whether it succeeded.
pub data Call : Type 0 where
  set_tenant_context : Uuid → Call
  read : String → Call
  save_workflow : Workflow → Bool → Call
  update_workflow : Workflow → Bool → Call
  delete_workflow : Uuid → Bool → Call
  save_execution : Execution → Bool → Call
  update_execution : Execution → Bool → Call
  save_alert : Alert → Bool → Call
  update_alert : Alert → Bool → Call
  save_alert_rule : AlertRule → Bool → Call
  update_alert_rule : AlertRule → Bool → Call
  delete_alert_rule : Uuid → Bool → Call
  update_last_triggered : Uuid → Bool → Call
  save_audit_log : AuditLog → Bool → Call
  save_metric : Metric → Bool → Call
  save_metric_batch : List Metric → Bool → Call
  save_definition : MetricDefinition → Bool → Call
  update_definition : MetricDefinition → Bool → Call
  delete_definition : Uuid → String → Bool → Call
  start_workflow : Workflow → String → Bool → Call
  cancel_workflow : String → Bool → Call
  spawn : Background → Call

abbrev pub History : Type 0
History = List Call

pub record WorkflowRepository : Type 0 where
  pub find_by_id : History → Uuid → Result Workflow
  pub find_by_tenant : History → Uuid → ℤ → ℤ → Result (List Workflow)
  pub count_by_tenant : History → Uuid → Result ℕ
  pub save : History → Workflow → Result (Unit {0})
  pub update : History → Workflow → Result (Unit {0})
  pub delete : History → Uuid → Result (Unit {0})

pub record ExecutionRepository : Type 0 where
  pub find_by_id : History → Uuid → Result Execution
  pub find_by_tenant : History → Uuid → ℤ → ℤ → Result (List Execution)
  pub find_by_workflow : History → Uuid → ℤ → ℤ → Result (List Execution)
  pub count_by_tenant : History → Uuid → Result ℕ
  pub save : History → Execution → Result (Unit {0})
  pub update : History → Execution → Result (Unit {0})

pub record AlertRepository : Type 0 where
  pub find_by_id : History → Uuid → Result Alert
  pub find_by_tenant : History → Uuid → ℤ → ℤ → Result (List Alert)
  pub count_by_tenant : History → Uuid → Result ℕ
  pub save : History → Alert → Result (Unit {0})
  pub update : History → Alert → Result (Unit {0})

pub record AlertRuleRepository : Type 0 where
  pub find_by_id : History → Uuid → Result AlertRule
  pub find_by_tenant : History → Uuid → ℤ → ℤ → Result (List AlertRule)
  pub find_enabled_by_tenant : History → Uuid → Result (List AlertRule)
  pub count_by_tenant : History → Uuid → Result ℕ
  pub save : History → AlertRule → Result (Unit {0})
  pub update : History → AlertRule → Result (Unit {0})
  pub delete : History → Uuid → Result (Unit {0})
  pub update_last_triggered : History → Uuid → Result (Unit {0})

pub record AuditRepository : Type 0 where
  pub find_by_id : History → Uuid → Result AuditLog
  pub find_by_tenant : History → Uuid → ℤ → ℤ → Result (List AuditLog)
  pub count_by_tenant : History → Uuid → Result ℕ
  pub save : History → AuditLog → Result (Unit {0})

pub record MetricRepository : Type 0 where
  pub save : History → Metric → Result (Unit {0})
  pub save_batch : History → List Metric → Result ℕ
  pub find_by_query : History → MetricQuery → Result (List Metric)
  pub count_by_query : History → MetricQuery → Result ℕ
  pub find_latest : History → Uuid → String → List (String × String) → Result Metric
  pub get_aggregate : History → MetricQuery → Result MetricAggregate
  pub get_series : History → MetricQuery → ℤ → Result (List TimeBucket)
  pub list_names : History → Uuid → String → Result (List String)

pub record MetricDefinitionRepository : Type 0 where
  pub find_by_name : History → Uuid → String → Result MetricDefinition
  pub find_by_tenant : History → Uuid → ℤ → ℤ → Result (List MetricDefinition)
  pub count_by_tenant : History → Uuid → Result ℕ
  pub save : History → MetricDefinition → Result (Unit {0})
  pub update : History → MetricDefinition → Result (Unit {0})
  pub delete : History → Uuid → String → Result (Unit {0})

pub record ExecuteResult : Type 0 where
  pub temporal_workflow_id : String
  pub temporal_run_id : String

-- The input map of a workflow run stands as the text that `json.Marshal` makes of it.
pub record WorkflowExecutor : Type 0 where
  pub execute : History → Workflow → String → Result ExecuteResult
  pub cancel : History → String → Result (Unit {0})

-- Go's library: the n-th reading of the clock and the n-th fresh UUID after the last call of an
-- adapter, `uuid.Parse` with its error, and the text of an error.
pub record Host : Type 0 where
  pub now : History → ℕ → Time
  pub new_uuid : History → ℕ → Uuid
  pub parse_uuid : String → Uuid × Option Error
  pub error_text : Error → String

-- What the services of `main` are built from. A service that is handed nil for another one is built
-- from false in the flag of that one.
pub record Ports : Type 0 where
  pub workflows : WorkflowRepository
  pub executions : ExecutionRepository
  pub alerts : AlertRepository
  pub rules : AlertRuleRepository
  pub audit_logs : AuditRepository
  pub metrics : MetricRepository
  pub definitions : MetricDefinitionRepository
  pub executor : WorkflowExecutor
  pub set_tenant : History → Uuid → Result (Unit {0})
  pub host : Host
  pub has_audit_service : Bool
  pub has_workflow_service : Bool
  pub has_alert_rule_service : Bool
