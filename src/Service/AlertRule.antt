-- ===== src/Service/AlertRule.antt =====
-- internal/core/service/alertrule.go
pub mod Raising
pub mod Evaluating
pub mod Auditing
use orchestrix_api.Common.{
  String, Bool, true, false, Option, none, some, List, [], ◌∷◌, ℤ, page_offset, override,
  override_pointer, if◌then◌else◌,
}
use orchestrix_api.Fault.{Result, ok, err}
use orchestrix_api.Domain.Values.{Uuid, Time, Float64, override_raw}
use orchestrix_api.Domain.AlertRule.{
  AlertRule, Checked, failed, value, can_trigger, evaluate_threshold,
}
use orchestrix_api.Domain.Alert.{Alert}
use orchestrix_api.Domain.Audit.{
  AuditEvent, AuditAction, alert_rule_created, alert_rule_updated, alert_rule_deleted, ResourceType,
  Entity, of_alert_rule,
}
use orchestrix_api.Port.Inputs.{Page, CreateAlertInput, CreateAlertRuleInput, UpdateAlertRuleInput}
use orchestrix_api.Port.Call.{
  Ports, History, read, save_alert_rule, update_alert_rule, delete_alert_rule,
  update_last_triggered,
}
use orchestrix_api.Port.Action.{Action, ask, write, pure, gets, ignore, ◌>>=◌, ◌>>◌}
use orchestrix_api.Service.Audit.{set_tenant, record_audit}
use orchestrix_api.Service.Alert as AlertService
use orchestrix_api.Service.Workflow as WorkflowService

-- The literal of Create.
abbrev pub new_rule : Uuid → Time → Time → CreateAlertRuleInput → AlertRule
new_rule id created updated input = record {
  id = id;
  tenant_id = input.tenant_id;
  name = input.name;
  description = input.description;
  enabled = true;
  condition_type = input.condition_type;
  condition_config = input.condition_config;
  severity = input.severity;
  alert_title_template = input.alert_title_template;
  alert_message_template = input.alert_message_template;
  trigger_workflow_id = input.trigger_workflow_id;
  trigger_input_template = input.trigger_input_template;
  cooldown_seconds = input.cooldown_seconds;
  last_triggered_at = none;
  created_by = some input.created_by;
  created_at = created;
  updated_at = updated;
}

-- The assignments of Update.
unfoldable pub apply_update : Time → UpdateAlertRuleInput → AlertRule → AlertRule
apply_update now input r = record r {
  name = override input.name r.name;
  description = override_pointer input.description r.description;
  enabled = override input.enabled r.enabled;
  condition_type = override input.condition_type r.condition_type;
  condition_config = override_raw input.condition_config r.condition_config;
  severity = override input.severity r.severity;
  alert_title_template = override input.alert_title_template r.alert_title_template;
  alert_message_template = override_pointer input.alert_message_template r.alert_message_template;
  trigger_workflow_id = override_pointer input.trigger_workflow_id r.trigger_workflow_id;
  trigger_input_template = override_raw input.trigger_input_template r.trigger_input_template;
  cooldown_seconds = override input.cooldown_seconds r.cooldown_seconds;
  updated_at = now;
}

-- The `switch` of logAudit.
abbrev pub action_of : AuditEvent → AuditAction
action_of alert_rule_updated = AuditAction.update
action_of alert_rule_deleted = AuditAction.delete
action_of _ = AuditAction.create

-- The literal that Evaluate hands to the alert service.
abbrev pub alert_input : Uuid → AlertRule → CreateAlertInput
alert_input tenant_id rule = record {
  tenant_id = tenant_id;
  workflow_id = none;
  execution_id = none;
  severity = rule.severity;
  title = rule.alert_title_template;
  message = rule.alert_message_template;
  source = none;
  triggered_by_rule_id = some rule.id;
}

-- How Evaluate ends: it returns, or it calls a method of a nil workflow service, which panics.
pub data Outcome : Type 0 where
  returned : Result (Unit {0}) → Outcome
  panicked : Outcome

module _ (p : Ports) where
  unfoldable pub list : Uuid → ℤ → ℤ → Action (Page AlertRule)
  list tenant_id page limit = do
    set_tenant p tenant_id
    let offset = page_offset page limit
    rules ← ask "alert rules by tenant" λ h. p.rules.find_by_tenant h tenant_id limit offset
    total ← ask "alert rules of tenant" λ h. p.rules.count_by_tenant h tenant_id
    pure (record { items = rules; total = total; page = page; limit = limit })

  unfoldable pub get_by_id : Uuid → Action AlertRule
  get_by_id id = ask "alert rule by id" λ h. p.rules.find_by_id h id

  unfoldable pub log_audit :
      Uuid → Option Uuid → AuditEvent → Uuid → Option Entity → Option Entity → Action Unit
  log_audit tenant_id user_id event resource_id old new =
      record_audit p tenant_id user_id event ResourceType.alert_rule resource_id (action_of event)
        old new

  unfoldable pub create : CreateAlertRuleInput → Action AlertRule
  unfolding log_audit
  create input = do
    set_tenant p input.tenant_id
    id ← gets λ h. p.host.new_uuid h 0
    created ← gets λ h. p.host.now h 0
    updated ← gets λ h. p.host.now h 1
    let rule = new_rule id created updated input
    write (save_alert_rule rule) λ h. p.rules.save h rule
    log_audit input.tenant_id (some input.created_by) alert_rule_created rule.id none
        (some (of_alert_rule rule))
    pure rule

  unfoldable pub update : Uuid → UpdateAlertRuleInput → Action AlertRule
  unfolding log_audit
  update id input = do
    old ← ask "alert rule by id" λ h. p.rules.find_by_id h id
    now ← gets λ h. p.host.now h 0
    let rule = apply_update now input old
    write (update_alert_rule rule) λ h. p.rules.update h rule
    log_audit rule.tenant_id none alert_rule_updated rule.id (some (of_alert_rule old))
        (some (of_alert_rule rule))
    pure rule

  unfoldable pub delete : Uuid → Action Unit
  unfolding log_audit
  delete id = do
    rule ← ask "alert rule by id" λ h. p.rules.find_by_id h id
    write (delete_alert_rule id) λ h. p.rules.delete h id
    log_audit rule.tenant_id none alert_rule_deleted rule.id (some (of_alert_rule rule)) none
    pure tt

  -- What the loop does with a rule, after which it goes on (true) or has panicked (false).

  -- A call of the workflow service with the input nil, which marshals to "null".
  unfoldable pub trigger_workflow : Option Uuid → Bool → History → Bool × History
  trigger_workflow none service h = (true, h)
  trigger_workflow (some id) true h = (true, (WorkflowService.execute p id "" "null" h).1)
  trigger_workflow (some id) false h = (false, h)

  unfoldable pub after_create : AlertRule → Result Alert → History → Bool × History
  unfolding trigger_workflow
  after_create rule (err e) h = (true, h)
  after_create rule (ok alert) h =
      let h' =
        (ignore
          (write (update_last_triggered rule.id) (λ g. p.rules.update_last_triggered g rule.id))
          h).1 in
      trigger_workflow rule.trigger_workflow_id p.has_workflow_service h'

  unfoldable pub after_check : Uuid → AlertRule → Checked Bool → History → Bool × History
  unfolding after_create
  after_check tenant_id rule (failed e) h = (true, h)
  after_check tenant_id rule (value false) h = (true, h)
  after_check tenant_id rule (value true) h =
      let (alert, h') = AlertService.create p (alert_input tenant_id rule) h in
      after_create rule alert h'

  unfoldable pub evaluate_rule : Uuid → Float64 → AlertRule → History → Bool × History
  unfolding after_check
  evaluate_rule tenant_id v rule h =
      if can_trigger (p.host.now h 0) rule
      then after_check tenant_id rule (evaluate_threshold v rule) h
      else (true, h)

  -- The loop of Evaluate.
  unfoldable pub evaluate_rules : Uuid → Float64 → List AlertRule → History → Outcome × History
  evaluate_rules tenant_id v [] h = (returned (ok tt), h)
  evaluate_rules tenant_id v (rule ∷ rules) h =
      let (go_on, h') = evaluate_rule tenant_id v rule h in
      let rest = evaluate_rules tenant_id v rules h' in if go_on then rest else (panicked, h')

  unfoldable pub evaluate_found :
      Uuid → Float64 → Result (List AlertRule) → History → Outcome × History
  unfolding evaluate_rules
  evaluate_found tenant_id v (err e) h = (returned (err e), h)
  evaluate_found tenant_id v (ok rules) h = evaluate_rules tenant_id v rules h

  -- The name of the metric is not read.
  unfoldable pub evaluate : Uuid → String → Float64 → History → Outcome × History
  unfolding evaluate_found
  evaluate tenant_id metric_name v h =
      evaluate_found tenant_id v (p.rules.find_enabled_by_tenant h tenant_id)
        (read "enabled alert rules of tenant" ∷ h)
