-- ===== src/Port/Inputs.antt =====
-- internal/core/port/primary.go: the inputs and results of the services.
use orchestrix_api.Common.{ℕ, String, Bool, Option, List, ℤ}
use orchestrix_api.Domain.Values.{Uuid, Time, Raw, Float64}
use orchestrix_api.Domain.Workflow.{WorkflowStatus, WorkflowDefinition}
use orchestrix_api.Domain.Alert.{AlertSeverity}
use orchestrix_api.Domain.AlertRule.{ThresholdCondition}
use orchestrix_api.Domain.Metric.{MetricType, AggregationType, AlertThreshold}

pub record CreateWorkflowInput : Type 0 where
  pub tenant_id : Uuid
  pub name : String
  pub description : Option String
  pub definition : Raw WorkflowDefinition
  pub schedule : Option String
  pub created_by : Option Uuid

-- In an update none is a nil pointer, and `absent` a nil slice: the field stays.
pub record UpdateWorkflowInput : Type 0 where
  pub name : Option String
  pub description : Option String
  pub definition : Raw WorkflowDefinition
  pub schedule : Option String
  pub status : Option WorkflowStatus

pub record CreateAlertInput : Type 0 where
  pub tenant_id : Uuid
  pub workflow_id : Option Uuid
  pub execution_id : Option Uuid
  pub severity : AlertSeverity
  pub title : String
  pub message : Option String
  pub source : Option String
  pub triggered_by_rule_id : Option Uuid

pub record CreateAlertRuleInput : Type 0 where
  pub tenant_id : Uuid
  pub name : String
  pub description : Option String
  pub condition_type : String
  pub condition_config : Raw ThresholdCondition
  pub severity : AlertSeverity
  pub alert_title_template : String
  pub alert_message_template : Option String
  pub trigger_workflow_id : Option Uuid
  pub trigger_input_template : Raw String
  pub cooldown_seconds : ℤ
  pub created_by : Uuid

pub record UpdateAlertRuleInput : Type 0 where
  pub name : Option String
  pub description : Option String
  pub enabled : Option Bool
  pub condition_type : Option String
  pub condition_config : Raw ThresholdCondition
  pub severity : Option AlertSeverity
  pub alert_title_template : Option String
  pub alert_message_template : Option String
  pub trigger_workflow_id : Option Uuid
  pub trigger_input_template : Raw String
  pub cooldown_seconds : Option ℤ

-- The list results (WorkflowListResult and the others) differ in the entity alone.
pub record Page {ℓ} (A : Type ℓ) : Type ℓ where
  pub items : List A
  pub total : ℕ
  pub page : ℤ
  pub limit : ℤ

pub record IngestMetricInput : Type 0 where
  pub tenant_id : Uuid
  pub name : String
  pub value : Float64
  pub labels : List (String × String)
  pub source : Option String
  pub timestamp : Option Time

pub record IngestMetricBatchInput : Type 0 where
  pub tenant_id : Uuid
  pub metrics : List IngestMetricInput

pub record IngestBatchResult : Type 0 where
  pub ingested : ℕ
  pub failed : ℕ
  pub errors : List String

pub record CreateMetricDefinitionInput : Type 0 where
  pub tenant_id : Uuid
  pub name : String
  pub display_name : Option String
  pub description : Option String
  pub unit : Option String
  pub kind : MetricType
  pub aggregation : AggregationType
  pub alert_threshold : Option AlertThreshold
  pub retention_days : ℤ

pub record UpdateMetricDefinitionInput : Type 0 where
  pub display_name : Option String
  pub description : Option String
  pub unit : Option String
  pub kind : Option MetricType
  pub aggregation : Option AggregationType
  pub alert_threshold : Option AlertThreshold
  pub retention_days : Option ℤ
