-- ===== src/Tests/Serving.antt =====
-- The theorems on the handlers and on the starts of workflows, for a user and a workflow of the
-- fixtures.
use orchestrix_api.Common.{◌≡◌, All, refl, false, none, some, List, [], ◌∷◌, map, pos}
use orchestrix_api.Fault.{ok}
use orchestrix_api.Domain.Values.{absent, at_rank}
use orchestrix_api.Engine.Definition.{no_fields}
use orchestrix_api.Auth.{User}
use orchestrix_api.Service.Alert as AlertService
use orchestrix_api.Service.Execution as ExecutionService
use orchestrix_api.Service.Workflow as WorkflowService
use orchestrix_api.Http.Handling.{Params}
use orchestrix_api.Http.Alerts as Alerts
use orchestrix_api.Http.Executions as Executions
use orchestrix_api.Http.Workflows as Workflows
use orchestrix_api.Http.Workflows.{Codec, UpdateWorkflowRequest, update_input}
use orchestrix_api.Http.Rules as Rules
use orchestrix_api.Http.Rules.{RuleCodec, UpdateAlertRuleRequest}
use orchestrix_api.Http.AuditLogs as AuditLogs
use orchestrix_api.Service.AlertRule as RuleService
use orchestrix_api.Service.Audit as AuditService
use orchestrix_api.Http.Guarding.{Follows, handlers-Follows}
use orchestrix_api.Domain.Workflow.{Workflow}
use orchestrix_api.Executor.{Client, workflow_id_of, execute}
use orchestrix_api.Executor.Starting.{Ended, execute-same_id}
use orchestrix_api.Service.Metric as MetricService
use orchestrix_api.Http.Metrics.{IngestMetricRequest, ingest_input, ingest_batch_valid}
use orchestrix_api.Http.Definitions.{CreateMetricDefinitionRequest, create_input, create_valid}
use orchestrix_api.Http.Checking.{Checks, IsBatch, IsDefinition, metrics-Checks}
use orchestrix_api.Tests.Fixtures.{adapters, a_workflow}

abbrev a_user : User
a_user = record { id = "u1"; tenant_id = 1; email = ""; name = ""; roles = [] }

abbrev a_codec : Codec
a_codec = record { marshal_definition = λ d. ok absent; marshal_input = λ i. "{}" }

abbrev an_update : UpdateWorkflowRequest
an_update = record {
  name = some "weekly";
  description = none;
  definition = none;
  schedule = none;
  status = some "active";
}

abbrev some_params : Params
some_params = record { user = some a_user; id = "7"; page = pos 1; limit = pos 20 }

abbrev a_rule_codec : RuleCodec
a_rule_codec = record { marshal_condition = λ d. absent; marshal_template = λ d. absent }

abbrev a_rule_update : UpdateAlertRuleRequest
a_rule_update = record {
  name = none;
  description = none;
  enabled = some false;
  condition_type = none;
  condition_config = none;
  severity = none;
  alert_title_template = none;
  alert_message_template = none;
  trigger_workflow_id = none;
  trigger_input_template = none;
  cooldown_seconds = some (pos 30);
}

handlers-Follows_example :
    Follows (Alerts.get adapters some_params) (AlertService.get_by_id adapters 2) []
    × Follows (Alerts.acknowledge adapters some_params) (AlertService.acknowledge adapters 2 2) []
    × Follows (Alerts.resolve adapters some_params) (AlertService.resolve adapters 2 2) []
    × Follows (Executions.get adapters some_params) (ExecutionService.get_by_id adapters 2) []
    × Follows (Executions.cancel adapters some_params) (ExecutionService.cancel adapters 2) []
    × Follows (Workflows.get adapters a_codec some_params) (WorkflowService.get_by_id adapters 2) []
    × Follows
        (Workflows.update adapters a_codec (some an_update) some_params)
        (WorkflowService.update adapters 2 (update_input a_codec an_update))
        []
    × Follows (Workflows.delete adapters a_codec some_params) (WorkflowService.delete adapters 2) []
    × Follows
        (Workflows.execute adapters a_codec (some (some no_fields)) some_params)
        (WorkflowService.execute adapters 2 "u1" "{}")
        []
    × Follows (Rules.get adapters a_rule_codec some_params) (RuleService.get_by_id adapters 2) []
    × Follows
        (Rules.update adapters a_rule_codec (some a_rule_update) some_params)
        (RuleService.update adapters 2 (Rules.update_input a_rule_codec a_rule_update))
        []
    × Follows (Rules.delete adapters a_rule_codec some_params) (RuleService.delete adapters 2) []
    × Follows (AuditLogs.get adapters some_params) (AuditService.get_by_id adapters 2) []
handlers-Follows_example =
    handlers-Follows adapters a_codec a_rule_codec a_user "7" (pos 1) (pos 20) 2 an_update
      a_rule_update (some no_fields) [] refl

-- A Temporal that starts everything.
abbrev a_client : Client
a_client = record {
  execute_workflow = λ s. ok (record { temporal_workflow_id = s.id; temporal_run_id = "run-1" });
  cancel_workflow = λ id. ok tt;
  describe = λ id. ok "Running";
  uuid_text = λ id. "7";
}

abbrev renamed_workflow : Workflow
renamed_workflow = record a_workflow { name = "weekly" }

execute-same_id_example :
    Ended a_client "queue" a_workflow "{}"
      (execute a_client "queue" a_workflow "{}").0
      (execute a_client "queue" a_workflow "{}").1
    × All
        (λ s. s.id ≡ workflow_id_of a_client "queue" a_workflow)
        (execute a_client "queue" a_workflow "{}").1
    × All
        (λ s. s.id ≡ workflow_id_of a_client "queue" a_workflow)
        (execute a_client "queue" renamed_workflow "[]").1
execute-same_id_example =
    execute-same_id a_client "queue" a_workflow renamed_workflow "{}" "[]" refl refl

abbrev some_metrics : List IngestMetricRequest
some_metrics =
    record { name = "cpu"; value = at_rank 95; labels = []; source = none; timestamp = none } ∷ []

abbrev a_definition : CreateMetricDefinitionRequest
a_definition = record {
  name = "cpu";
  display_name = none;
  description = none;
  unit = none;
  kind = "gauge";
  aggregation = "";
  alert_threshold = none;
  retention_days = none;
}

metrics-Checks_example :
    Checks
      (IsBatch some_metrics)
      (ingest_batch_valid adapters a_user some_metrics)
      (MetricService.ingest_batch adapters
        (record { tenant_id = 1; metrics = map (ingest_input a_user) some_metrics }))
      []
    × Checks
        (IsDefinition a_definition)
        (create_valid adapters a_user a_definition)
        (MetricService.create_definition adapters (create_input a_user a_definition))
        []
metrics-Checks_example = metrics-Checks adapters a_user [] some_metrics a_definition
