-- ===== src/Db/Rows.antt =====
-- internal/db/models.go. A `pgtype.UUID` or `pgtype.Timestamptz` is none when it is not valid; a
-- column of JSON stands as in the entities.
use orchestrix_api.Common.{ℕ, String, Bool, Option, ℤ}
use orchestrix_api.Domain.Values.{Uuid, Time, Raw}
use orchestrix_api.Domain.Workflow.{WorkflowDefinition}
use orchestrix_api.Domain.AlertRule.{ThresholdCondition}

pub record AlertRow : Type 0 where
  pub id : Uuid
  pub tenant_id : Uuid
  pub workflow_id : Option Uuid
  pub execution_id : Option Uuid
  pub severity : String
  pub title : String
  pub message : Option String
  pub status : String
  pub acknowledged_at : Option Time
  pub acknowledged_by : Option Uuid
  pub resolved_at : Option Time
  pub resolved_by : Option Uuid
  pub created_at : Time
  pub triggered_by_rule_id : Option Uuid
  pub triggered_workflow_execution_id : Option Uuid
  pub source : Option String
  pub metadata : Raw String

pub record AlertRuleRow : Type 0 where
  pub id : Uuid
  pub tenant_id : Uuid
  pub name : String
  pub description : Option String
  pub enabled : Bool
  pub condition_type : String
  pub condition_config : Raw ThresholdCondition
  pub severity : String
  pub alert_title_template : String
  pub alert_message_template : Option String
  pub trigger_workflow_id : Option Uuid
  pub trigger_input_template : Raw String
  pub cooldown_seconds : ℤ
  pub last_triggered_at : Option Time
  pub created_by : Option Uuid
  pub created_at : Time
  pub updated_at : Time

pub record ExecutionRow : Type 0 where
  pub id : Uuid
  pub tenant_id : Uuid
  pub workflow_id : Uuid
  pub temporal_workflow_id : Option String
  pub temporal_run_id : Option String
  pub status : String
  pub input : Raw String
  pub output : Raw String
  pub error : Option String
  pub started_at : Option Time
  pub completed_at : Option Time
  pub created_by : Option Uuid
  pub created_at : Time
  pub triggered_by : Option String

pub record WorkflowRow : Type 0 where
  pub id : Uuid
  pub tenant_id : Uuid
  pub name : String
  pub description : Option String
  pub definition : Raw WorkflowDefinition
  pub schedule : Option String
  pub status : String
  pub version : ℕ
  pub created_by : Option Uuid
  pub created_at : Time
  pub updated_at : Time
