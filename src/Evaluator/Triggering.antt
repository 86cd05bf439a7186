-- ===== src/Evaluator/Triggering.antt =====
-- EvaluateMetric, triggerAlert and triggerWorkflow: the evaluator over the tables and Temporal.
use orchestrix_api.Common.{
  ℕ, ◌+◌, String, ◌+++◌, Bool, true, false, Option, none, some, List, [], ◌∷◌, if◌then◌else◌,
  ◌==◌ as nat_eq,
}
use orchestrix_api.Fault.{Error, other, wrapped, Result, ok, err}
use orchestrix_api.Domain.Values.{Uuid, Time, Raw, parsed}
use orchestrix_api.Domain.AlertRule.{ThresholdCondition}
use orchestrix_api.Domain.Workflow.{WorkflowDefinition}
use orchestrix_api.Engine.Definition.{Fields}
use orchestrix_api.Db.{Session, Fetched, row, no_rows, broken}
use orchestrix_api.Db.Rows.{AlertRow, AlertRuleRow, ExecutionRow, WorkflowRow}
use orchestrix_api.Db.Alerts.{CreateAlertParams, create_alert, update_alert_triggered_execution}
use orchestrix_api.Db.Executions.{
  CreateExecutionParams, create_execution, update_execution_status, update_execution_run_id,
}
use orchestrix_api.Db.Workflows.{get_workflow}
use orchestrix_api.Db.Rules.{get_alert_rules_for_metric, update_alert_rule_last_triggered}
use orchestrix_api.Postgres.{no_rows_error}
use orchestrix_api.Evaluator.Deciding.{MetricData, evaluate_rule}
use orchestrix_api.Evaluator.Rendering.{
  AlertTemplateData, Engine, render_or_keep, render_message, render_input_template, string_ptr,
}

-- A workflow that Temporal is asked to start. The definition goes to the dynamic workflow only.
pub record Start : Type 0 where
  pub temporal_workflow_id : String
  pub workflow : String
  pub workflow_id : Uuid
  pub execution_id : Uuid
  pub definition : Option (Raw WorkflowDefinition)
  pub input : Fields

-- The tables, the workflows that were started, the newest first, and how many statements there were.
pub record World : Type 0 where
  pub rules : List AlertRuleRow
  pub alerts : List AlertRow
  pub executions : List ExecutionRow
  pub workflows : List WorkflowRow
  pub starts : List Start
  pub statements : ℕ

-- What the evaluator uses of its surroundings: the database for each statement, the start of a
-- workflow with the ID of its run, and what Go's library makes of JSON, templates, times and UUIDs.
pub record Environment : Type 0 where
  pub db : ℕ → Session
  pub start : List Start → Start → Result String
  pub clock : ℕ → Time
  pub engine : Engine
  pub metric_name_of : Raw ThresholdCondition → Option String
  pub partial_condition : Raw ThresholdCondition → ThresholdCondition
  pub unmarshal_error : Raw ThresholdCondition → Error
  pub input_template_of : Raw String → Option Fields
  pub has_steps_key : Raw WorkflowDefinition → Bool
  pub marshal_input : Fields → Raw String
  pub metadata : MetricData → AlertRuleRow → ThresholdCondition → Raw String
  pub default_input : Uuid → Uuid → MetricData → Fields
  pub rfc3339 : Time → String
  pub uuid_text : Uuid → String
  pub error_text : Error → String

-- `_ = json.Unmarshal(...)` leaves what it could decode.
abbrev pub condition_of : Environment → Raw ThresholdCondition → ThresholdCondition
condition_of e (parsed cond) = cond
condition_of e config = e.partial_condition config

-- ErrTenantMismatch
abbrev pub tenant_mismatch : Error
tenant_mismatch = other "workflow belongs to different tenant"

module _ (e : Environment) where
  abbrev pub on_rules :
      {B : Type 0} → (Session → List AlertRuleRow → B × List AlertRuleRow) → World → B × World
  on_rules f w =
      let r = f (e.db w.statements) w.rules in
      (r.0, record w { rules = r.1; statements = w.statements + 1 })

  abbrev pub on_alerts :
      {B : Type 0} → (Session → List AlertRow → B × List AlertRow) → World → B × World
  on_alerts f w =
      let r = f (e.db w.statements) w.alerts in
      (r.0, record w { alerts = r.1; statements = w.statements + 1 })

  abbrev pub on_executions :
      {B : Type 0} → (Session → List ExecutionRow → B × List ExecutionRow) → World → B × World
  on_executions f w =
      let r = f (e.db w.statements) w.executions in
      (r.0, record w { executions = r.1; statements = w.statements + 1 })

  abbrev pub read : World → World
  read w = record w { statements = w.statements + 1 }

  -- The end of triggerWorkflow: the status of the execution, whose error is dropped.
  unfoldable pub record_start : Uuid → Result String → World → Result (Unit {0}) × World
  unfolding update_execution_status update_execution_run_id string_ptr
  record_start execution (err x) w = (
    err x,
    (on_executions
        (λ s rs.
          update_execution_status s execution "failed"
            (string_ptr ("failed to start workflow: " +++ e.error_text x)) rs)
        w).1,
  )
  record_start execution (ok run) w = (
    ok tt,
    (on_executions
        (λ s rs.
          update_execution_run_id s execution (string_ptr run) "running"
            (some (e.clock w.statements)) rs)
        w).1,
  )

  -- Which workflow is started: the dynamic one for a definition with steps.
  abbrev pub start_of : Uuid → Uuid → WorkflowRow → Uuid → Fields → Start
  start_of alert workflow_id workflow execution input = record {
    temporal_workflow_id = "alert-" +++ e.uuid_text alert;
    workflow = if e.has_steps_key workflow.definition then "DynamicWorkflow" else "ProcessWorkflow";
    workflow_id = workflow_id;
    execution_id = execution;
    definition = if e.has_steps_key workflow.definition then some workflow.definition else none;
    input = input;
  }

  unfoldable pub start_workflow : Start → World → Result (Unit {0}) × World
  unfolding record_start
  start_workflow st w =
      record_start st.execution_id (e.start w.starts st) (record w { starts = st ∷ w.starts })

  -- From the new row of the execution on.
  unfoldable pub after_execution :
      Uuid → Uuid → WorkflowRow → Fields → Fetched ExecutionRow → World → Result (Unit {0}) × World
  unfolding update_alert_triggered_execution start_workflow
  after_execution alert workflow_id workflow input (broken x) w = (err x, w)
  after_execution alert workflow_id workflow input no_rows w = (err no_rows_error, w)
  after_execution alert workflow_id workflow input (row execution) w =
      start_workflow (start_of alert workflow_id workflow execution.id input)
        (on_alerts (λ s rs. update_alert_triggered_execution s alert (some execution.id) rs) w).1

  -- The input from the template of the rule, or else the usual one.
  unfoldable pub workflow_input : AlertRuleRow → Uuid → MetricData → AlertTemplateData → Fields
  unfolding render_input_template
  workflow_input rule alert m d = elim (e.input_template_of rule.trigger_input_template) [
    | some fs ↦ render_input_template e.engine d fs
    | none ↦ e.default_input alert rule.id m
  ]

  abbrev pub execution_params : Uuid → AlertRuleRow → Uuid → Uuid → Fields → CreateExecutionParams
  execution_params tenant_id rule workflow_id alert input = record {
    tenant_id = tenant_id;
    workflow_id = workflow_id;
    temporal_workflow_id = some ("alert-" +++ e.uuid_text alert);
    status = "pending";
    input = e.marshal_input input;
    triggered_by = some ("alert_rule:" +++ e.uuid_text rule.id);
  }

  unfoldable pub with_workflow :
      Uuid
      → AlertRuleRow
      → Uuid
      → Uuid
      → MetricData
      → AlertTemplateData
      → Fetched WorkflowRow
      → World
      → Result (Unit {0}) × World
  unfolding workflow_input create_execution after_execution
  with_workflow tenant_id rule workflow_id alert m d (broken x) w =
      (err (wrapped "get workflow" x), w)
  with_workflow tenant_id rule workflow_id alert m d no_rows w =
      (err (wrapped "get workflow" no_rows_error), w)
  with_workflow tenant_id rule workflow_id alert m d (row workflow) w =
      if nat_eq workflow.tenant_id tenant_id
      then (let input = workflow_input rule alert m d in
          let created =
            on_executions
              (λ s rs.
                create_execution s (execution_params tenant_id rule workflow_id alert input) rs)
              w in
          after_execution alert workflow_id workflow input created.0 created.1)
      else (err tenant_mismatch, w)

  unfoldable pub trigger_workflow :
      Uuid
      → AlertRuleRow
      → Uuid
      → Uuid
      → MetricData
      → AlertTemplateData
      → World
      → Result (Unit {0}) × World
  unfolding get_workflow with_workflow
  trigger_workflow tenant_id rule workflow_id alert m d w =
      with_workflow tenant_id rule workflow_id alert m d
        (get_workflow (e.db w.statements) workflow_id w.workflows) (read w)

  abbrev pub template_data : AlertRuleRow → MetricData → AlertTemplateData
  template_data rule m = record {
    metric_name = m.name;
    value = m.value;
    threshold = (condition_of e rule.condition_config).threshold;
    operator = (condition_of e rule.condition_config).operator;
    labels = m.labels;
    source = m.source;
    timestamp = e.rfc3339 m.timestamp;
    rule_name = rule.name;
    severity = rule.severity;
  }

  unfoldable pub alert_params : Uuid → AlertRuleRow → MetricData → CreateAlertParams
  unfolding render_or_keep render_message string_ptr
  alert_params tenant_id rule m = record {
    tenant_id = tenant_id;
    title = render_or_keep e.engine (template_data rule m) rule.alert_title_template;
    message =
        string_ptr (render_message e.engine (template_data rule m) rule.alert_message_template);
    severity = rule.severity;
    source = string_ptr m.source;
    metadata = e.metadata m rule (condition_of e rule.condition_config);
    triggered_by_rule_id = some rule.id;
  }

  -- `if rule.TriggerWorkflowID.Valid`: the error is logged.
  unfoldable pub maybe_workflow :
      Option Uuid → Uuid → AlertRuleRow → Uuid → MetricData → World → World
  unfolding trigger_workflow
  maybe_workflow none tenant_id rule alert m w = w
  maybe_workflow (some workflow_id) tenant_id rule alert m w =
      (trigger_workflow tenant_id rule workflow_id alert m (template_data rule m) w).1

  unfoldable pub after_alert :
      Uuid → AlertRuleRow → MetricData → Fetched AlertRow → World → Result (Unit {0}) × World
  unfolding update_alert_rule_last_triggered maybe_workflow
  after_alert tenant_id rule m (broken x) w = (err (wrapped "create alert" x), w)
  after_alert tenant_id rule m no_rows w = (err (wrapped "create alert" no_rows_error), w)
  after_alert tenant_id rule m (row alert) w = (
    ok tt,
    maybe_workflow rule.trigger_workflow_id tenant_id rule alert.id m
        (on_rules (λ s rs. update_alert_rule_last_triggered s rule.id rs) w).1,
  )

  unfoldable pub trigger_alert :
      Uuid → AlertRuleRow → MetricData → World → Result (Unit {0}) × World
  unfolding create_alert alert_params after_alert
  trigger_alert tenant_id rule m w =
      let created = on_alerts (λ s rs. create_alert s (alert_params tenant_id rule m) rs) w in
      after_alert tenant_id rule m created.0 created.1

  -- What the loop does with a rule: the errors are logged.
  abbrev pub act_on : Uuid → AlertRuleRow → MetricData → Result Bool → World → World
  act_on tenant_id rule m (err x) w = w
  act_on tenant_id rule m (ok false) w = w
  act_on tenant_id rule m (ok true) w = (trigger_alert tenant_id rule m w).1

  unfoldable pub evaluate_rules : Uuid → MetricData → List AlertRuleRow → World → World
  unfolding evaluate_rule trigger_alert
  evaluate_rules tenant_id m [] w = w
  evaluate_rules tenant_id m (rule ∷ rules) w =
      evaluate_rules tenant_id m rules
        (act_on tenant_id rule m (evaluate_rule e.unmarshal_error rule m) w)

  abbrev pub with_rules :
      Uuid → MetricData → Result (List AlertRuleRow) → World → Result (Unit {0}) × World
  with_rules tenant_id m (err x) w = (err x, w)
  with_rules tenant_id m (ok rules) w = (ok tt, evaluate_rules tenant_id m rules w)

  unfoldable pub evaluate_metric : Uuid → MetricData → World → Result (Unit {0}) × World
  unfolding get_alert_rules_for_metric evaluate_rules
  evaluate_metric tenant_id m w =
      with_rules tenant_id m
        (get_alert_rules_for_metric e.metric_name_of (e.db w.statements) tenant_id m.name w.rules)
        (read w)
