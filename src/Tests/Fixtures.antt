-- ===== src/Tests/Fixtures.antt =====
-- The entities and the adapters of the concrete runs.
use orchestrix_api.Common.{◌+◌, true, false, Option, none, some, [], ◌∷◌, pos, ◌==◌, if◌then◌else◌}
use orchestrix_api.Fault.{sentinel, Result, ok, err}
use orchestrix_api.Domain.Errors.{alert_not_found, metric_definition_not_found, metric_not_found}
use orchestrix_api.Domain.Values.{Uuid, absent, parsed, at_rank}
use orchestrix_api.Domain.Workflow.{Workflow, active}
use orchestrix_api.Domain.Execution.{Execution, running}
use orchestrix_api.Domain.Alert.{Alert, AlertSeverity, triggered}
use orchestrix_api.Domain.AlertRule.{AlertRule}
use orchestrix_api.Domain.Audit.{AuditLog}
use orchestrix_api.Domain.Metric.{Metric}
use orchestrix_api.Port.Inputs.{CreateAlertInput}
use orchestrix_api.Port.Call.{Ports, Host, History, save_alert, update_alert}

abbrev pub a_workflow : Workflow
a_workflow = record {
  id = 7;
  tenant_id = 1;
  name = "nightly";
  description = none;
  definition = parsed (record { steps = record { name = "hello"; kind = "log" } ∷ [] });
  schedule = none;
  status = active;
  version = 1;
  created_by = some 2;
  created_at = 10;
  updated_at = 10;
}

abbrev pub an_execution : Execution
an_execution = record {
  id = 8;
  tenant_id = 1;
  workflow_id = 7;
  temporal_workflow_id = some "nightly-8";
  temporal_run_id = some "run-1";
  status = running;
  input = absent;
  output = absent;
  error = none;
  started_at = some 20;
  completed_at = none;
  created_by = some 2;
  created_at = 15;
  triggered_by = some "manual";
}

abbrev pub alert_request : CreateAlertInput
alert_request = record {
  tenant_id = 1;
  workflow_id = none;
  execution_id = none;
  severity = AlertSeverity.high;
  title = "cpu";
  message = some "too high";
  source = none;
  triggered_by_rule_id = some 9;
}

abbrev pub an_alert : Alert
an_alert = record {
  id = 5;
  tenant_id = 1;
  workflow_id = none;
  execution_id = none;
  severity = AlertSeverity.high;
  title = "cpu";
  message = some "too high";
  status = triggered;
  acknowledged_at = none;
  acknowledged_by = none;
  resolved_at = none;
  resolved_by = none;
  created_at = 30;
  triggered_by_rule_id = some 9;
  triggered_workflow_execution_id = none;
  source = none;
  metadata = absent;
}

abbrev pub a_rule : AlertRule
a_rule = record {
  id = 9;
  tenant_id = 1;
  name = "cpu";
  description = none;
  enabled = true;
  condition_type = "threshold";
  condition_config =
      parsed (record { metric_name = "cpu"; operator = "gt"; threshold = at_rank 90 });
  severity = AlertSeverity.high;
  alert_title_template = "cpu";
  alert_message_template = some "too high";
  trigger_workflow_id = some 7;
  trigger_input_template = absent;
  cooldown_seconds = pos 60;
  last_triggered_at = none;
  created_by = some 2;
  created_at = 5;
  updated_at = 5;
}

abbrev pub a_metric : Metric
a_metric = record {
  id = 3;
  tenant_id = 1;
  name = "cpu";
  value = at_rank 95;
  labels = [];
  source = none;
  timestamp = 40;
  created_at = 41;
}

abbrev pub an_audit_log : AuditLog
an_audit_log = record {
  id = 4;
  tenant_id = 1;
  user_id = none;
  event_type = orchestrix_api.Domain.Audit.alert_created;
  resource_type = orchestrix_api.Domain.Audit.ResourceType.alert;
  resource_id = some 5;
  action = orchestrix_api.Domain.Audit.AuditAction.create;
  old_value = none;
  new_value = none;
  ip_address = none;
  user_agent = none;
  created_at = 30;
}

-- The alert that the writes of a history leave under an id.
abbrev written : History → Uuid → Option Alert
written [] id = none
written (save_alert a true ∷ h) id = if a.id == id then some a else written h id
written (update_alert a true ∷ h) id = if a.id == id then some a else written h id
written (_ ∷ h) id = written h id

abbrev stored_or_not_found : Option Alert → Result Alert
stored_or_not_found (some a) = ok a
stored_or_not_found none = err (sentinel alert_not_found)

abbrev done : Result (Unit {0})
done = ok tt

abbrev pub a_host : Host
a_host = record {
  now = λ h n. 1000 + n;
  new_uuid = λ h n. 1 + n;
  parse_uuid = λ s. (2, none);
  error_text = λ e. "failed";
}

-- Adapters that take every write; alerts are found as they were written.
abbrev pub adapters : Ports
adapters = record {
  workflows = record {
    find_by_id = λ h id. ok a_workflow;
    find_by_tenant = λ h t l o. ok (a_workflow ∷ []);
    count_by_tenant = λ h t. ok 1;
    save = λ h w. done;
    update = λ h w. done;
    delete = λ h id. done;
  };
  executions = record {
    find_by_id = λ h id. ok an_execution;
    find_by_tenant = λ h t l o. ok (an_execution ∷ []);
    find_by_workflow = λ h w l o. ok (an_execution ∷ []);
    count_by_tenant = λ h t. ok 1;
    save = λ h e. done;
    update = λ h e. done;
  };
  alerts = record {
    find_by_id = λ h id. stored_or_not_found (written h id);
    find_by_tenant = λ h t l o. ok [];
    count_by_tenant = λ h t. ok 0;
    save = λ h a. done;
    update = λ h a. done;
  };
  rules = record {
    find_by_id = λ h id. ok a_rule;
    find_by_tenant = λ h t l o. ok (a_rule ∷ []);
    find_enabled_by_tenant = λ h t. ok (a_rule ∷ []);
    count_by_tenant = λ h t. ok 1;
    save = λ h r. done;
    update = λ h r. done;
    delete = λ h id. done;
    update_last_triggered = λ h id. done;
  };
  audit_logs = record {
    find_by_id = λ h id. ok an_audit_log;
    find_by_tenant = λ h t l o. ok [];
    count_by_tenant = λ h t. ok 0;
    save = λ h l. done;
  };
  metrics = record {
    save = λ h m. done;
    save_batch = λ h ms. ok 2;
    find_by_query = λ h q. ok [];
    count_by_query = λ h q. ok 0;
    find_latest = λ h t n l. ok a_metric;
    get_aggregate = λ h q. err (sentinel metric_not_found);
    get_series = λ h q s. ok [];
    list_names = λ h t prefix. ok ("cpu" ∷ []);
  };
  definitions = record {
    find_by_name = λ h t n. err (sentinel metric_definition_not_found);
    find_by_tenant = λ h t l o. ok [];
    count_by_tenant = λ h t. ok 0;
    save = λ h d. done;
    update = λ h d. done;
    delete = λ h t n. done;
  };
  executor = record {
    execute =
        λ h w input. ok (record { temporal_workflow_id = "nightly-8"; temporal_run_id = "run-1" });
    cancel = λ h id. done;
  };
  set_tenant = λ h t. done;
  host = a_host;
  has_audit_service = true;
  has_workflow_service = false;
  has_alert_rule_service = true;
}
