-- ===== src/Tests/Services.antt =====
-- The services' theorems over the adapters of the fixtures.
use orchestrix_api.Common.{none, false, pos, ◌≡◌, ◌⊎◌, refl, true, some, List, [], ◌∷◌, ◌++◌, map}
use orchestrix_api.Fault.{Error, ok, err}
use orchestrix_api.Domain.Values.{at_rank, gt_float, absent}
use orchestrix_api.Domain.Workflow.{Workflow}
use orchestrix_api.Domain.Execution.{Execution}
use orchestrix_api.Domain.Alert.{Alert, AlertSeverity}
use orchestrix_api.Domain.AlertRule.{
  AlertRule, can_trigger, evaluate_threshold, value, parse_threshold_condition, compare_threshold,
}
use orchestrix_api.Port.Inputs.{CreateAlertRuleInput, UpdateAlertRuleInput}
use orchestrix_api.Port.Call.{Call, History, save_alert, read}
use orchestrix_api.Port.Action.{◌>>=◌}
use orchestrix_api.Service.Audit.{record_audit}
use orchestrix_api.Port.Trace.{audit_trail, writes, alert_saves}
use orchestrix_api.Service.Alert as AlertService
use orchestrix_api.Service.Alert.Requests as AlertRequests
use orchestrix_api.Service.Alert.Auditing as AlertAuditing
use orchestrix_api.Service.Execution.Cancelling.{Cancelling}
use orchestrix_api.Service.Workflow as WorkflowService
use orchestrix_api.Service.Workflow.Requests as WorkflowRequests
use orchestrix_api.Service.Workflow.Auditing as WorkflowAuditing
use orchestrix_api.Service.Workflow.Executing.{IsPendingOf, Executing, execute_lem}
use orchestrix_api.Service.AlertRule.{alert_input, returned, panicked, evaluate}
use orchestrix_api.Service.AlertRule.Evaluating.{HandledAll, evaluate_lem}
use orchestrix_api.Service.AlertRule as RuleService
use orchestrix_api.Service.AlertRule.Auditing.{
  Recorded, created, updated, deleted, found_rule, rule_audit_trail,
}
use orchestrix_api.Tests.Fixtures.{an_alert, a_rule, adapters}

abbrev one_alert : History
one_alert = save_alert an_alert true ∷ []

evaluate_lem_example :
    ((e : Error) × (adapters.rules.find_enabled_by_tenant [] 1 ≡ err e)
      × ((evaluate adapters 1 "cpu" (at_rank 95) []).0 ≡ returned (err e))
      × (alert_saves (evaluate adapters 1 "cpu" (at_rank 95) []).1 ≡ alert_saves []))
    ⊎ ((rs : List AlertRule) × (new : List Alert) × (adapters.rules.find_enabled_by_tenant [] 1
          ≡ ok rs)
        × HandledAll adapters 1 (at_rank 95) rs (evaluate adapters 1 "cpu" (at_rank 95) []).0 new
        × (alert_saves (evaluate adapters 1 "cpu" (at_rank 95) []).1 ≡ new ++ alert_saves []))
evaluate_lem_example = evaluate_lem adapters 1 "cpu" (at_rank 95) []

execute_lem_example :
    ((x : Error) × (adapters.workflows.find_by_id [] 7 ≡ err x)
      × ((WorkflowService.execute adapters 7 "" "{}" []).0 ≡ err x)
      × (writes (WorkflowService.execute adapters 7 "" "{}" []).1 ≡ writes []))
    ⊎ ((w : Workflow) × (e : Execution) × (new : List Call) × (adapters.workflows.find_by_id [] 7
          ≡ ok w)
        × IsPendingOf "" "{}" w e
        × Executing adapters w "{}" e
            (read "workflow by id" ∷ [])
            (WorkflowService.execute adapters 7 "" "{}" []).0
            new
        × (writes (WorkflowService.execute adapters 7 "" "{}" []).1 ≡ new ++ writes []))
execute_lem_example = execute_lem adapters 7 "" "{}" []

audit_trail-perform_example :
    map AlertAuditing.entry
      (audit_trail (AlertRequests.perform adapters (AlertRequests.acknowledging 5 2) one_alert).1)
    ≡ AlertAuditing.entries
        (AlertRequests.acknowledging 5 2)
        (AlertRequests.perform adapters (AlertRequests.acknowledging 5 2) one_alert).0
      ++ map AlertAuditing.entry (audit_trail one_alert)
audit_trail-perform_example =
    AlertAuditing.audit_trail-perform adapters (AlertRequests.acknowledging 5 2) one_alert refl

workflow_audit_trail_example :
    map WorkflowAuditing.kind
      (audit_trail (WorkflowRequests.perform adapters (WorkflowRequests.deleting 7) []).1)
    ≡ WorkflowAuditing.expected
        (WorkflowRequests.event_of (WorkflowRequests.deleting 7))
        (WorkflowRequests.perform adapters (WorkflowRequests.deleting 7) []).0
      ++ map WorkflowAuditing.kind (audit_trail [])
workflow_audit_trail_example =
    WorkflowAuditing.workflow_audit_trail adapters (WorkflowRequests.deleting 7) [] refl

rule_can : can_trigger 1000 a_rule ≡ true
unfolding can_trigger
rule_can = refl

rule_fires : evaluate_threshold (at_rank 95) a_rule ≡ value true
unfolding evaluate_threshold parse_threshold_condition compare_threshold gt_float
rule_fires = refl

abbrev raised_alert : Alert
raised_alert = AlertService.new_alert 1 1000 (alert_input 1 a_rule)

rule_raises :
    (AlertService.create adapters
      (alert_input 1 a_rule)
      (read "enabled alert rules of tenant" ∷ [])).0
    ≡ ok raised_alert
unfolding AlertService.create ◌>>=◌ record_audit
rule_raises = refl

abbrev rule_request : CreateAlertRuleInput
rule_request = record {
  tenant_id = 1;
  name = "cpu";
  description = none;
  condition_type = "threshold";
  condition_config = absent;
  severity = AlertSeverity.high;
  alert_title_template = "cpu";
  alert_message_template = none;
  trigger_workflow_id = none;
  trigger_input_template = absent;
  cooldown_seconds = pos 60;
  created_by = 2;
}

abbrev rule_change : UpdateAlertRuleInput
rule_change = record {
  name = some "processor";
  description = none;
  enabled = some false;
  condition_type = none;
  condition_config = absent;
  severity = none;
  alert_title_template = none;
  alert_message_template = none;
  trigger_workflow_id = none;
  trigger_input_template = absent;
  cooldown_seconds = none;
}

rule_audit_trail_example :
    Recorded [] created
      (RuleService.create adapters rule_request []).0
      none
      (RuleService.create adapters rule_request []).1
    × Recorded [] updated
        (RuleService.update adapters 9 rule_change []).0
        (found_rule (adapters.rules.find_by_id [] 9))
        (RuleService.update adapters 9 rule_change []).1
    × Recorded [] deleted
        (RuleService.delete adapters 9 []).0
        (found_rule (adapters.rules.find_by_id [] 9))
        (RuleService.delete adapters 9 []).1
rule_audit_trail_example = rule_audit_trail adapters rule_request rule_change 9 [] refl
