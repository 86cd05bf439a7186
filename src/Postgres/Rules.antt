-- ===== src/Postgres/Rules.antt =====
-- internal/adapter/driven/postgres/alertrule.go: AlertRuleRepository.
use orchestrix_api.Common.{ℕ, List, [], ◌∷◌, ℤ, pos, if◌then◌else◌, ◌==◌ as nat_eq}
use orchestrix_api.Fault.{Result, ok, err, sentinel}
use orchestrix_api.Domain.Errors.{alert_rule_not_found}
use orchestrix_api.Domain.Values.{Uuid, nil_uuid}
use orchestrix_api.Domain.AlertRule.{AlertRule}
use orchestrix_api.Db.{Session}
use orchestrix_api.Db.Rows.{AlertRuleRow}
use orchestrix_api.Db.Rules.{
  CreateAlertRuleParams, UpdateAlertRuleParams, create_alert_rule, get_alert_rule,
  delete_alert_rule, list_alert_rules, list_enabled_alert_rules, count_alert_rules,
  update_alert_rule, update_alert_rule_last_triggered,
}
use orchestrix_api.Postgres.{uuid_to_pgtype, found, error_of, each}
use orchestrix_api.Postgres.Texts.{severity_text, severity_of}

unfoldable pub to_domain : AlertRuleRow → AlertRule
unfolding severity_of
to_domain r = record {
  id = r.id;
  tenant_id = r.tenant_id;
  name = r.name;
  description = r.description;
  enabled = r.enabled;
  condition_type = r.condition_type;
  condition_config = r.condition_config;
  severity = severity_of r.severity;
  alert_title_template = r.alert_title_template;
  alert_message_template = r.alert_message_template;
  trigger_workflow_id = r.trigger_workflow_id;
  trigger_input_template = r.trigger_input_template;
  cooldown_seconds = r.cooldown_seconds;
  last_triggered_at = r.last_triggered_at;
  created_by = r.created_by;
  created_at = r.created_at;
  updated_at = r.updated_at;
}

-- The loop of FindByID.
unfoldable pub with_id : Uuid → List AlertRuleRow → Result AlertRule
with_id id [] = err (sentinel alert_rule_not_found)
with_id id (r ∷ rs) = if nat_eq r.id id then ok (to_domain r) else with_id id rs

unfoldable pub with_id_of : Uuid → Result (List AlertRuleRow) → Result AlertRule
unfolding with_id
with_id_of id (err e) = err e
with_id_of id (ok rs) = with_id id rs

-- FindByID asks for the rules of the tenant `uuid.Nil`.
unfoldable pub find_by_id :
    (List AlertRuleRow → List AlertRuleRow) → Session → Uuid → List AlertRuleRow → Result AlertRule
unfolding list_alert_rules with_id_of
find_by_id arrange s id rs =
    with_id_of id (list_alert_rules arrange s nil_uuid (pos 1000) (pos 0) rs)

unfoldable pub find_by_id_with_tenant : Session → Uuid → Uuid → List AlertRuleRow → Result AlertRule
unfolding get_alert_rule
find_by_id_with_tenant s id tenant_id rs =
    found alert_rule_not_found to_domain (get_alert_rule s id tenant_id rs)

unfoldable pub find_by_tenant :
    (List AlertRuleRow → List AlertRuleRow)
    → Session
    → Uuid
    → ℤ
    → ℤ
    → List AlertRuleRow
    → Result (List AlertRule)
unfolding list_alert_rules
find_by_tenant arrange s tenant_id limit offset rs =
    each to_domain (list_alert_rules arrange s tenant_id limit offset rs)

unfoldable pub find_enabled_by_tenant :
    (List AlertRuleRow → List AlertRuleRow)
    → Session
    → Uuid
    → List AlertRuleRow
    → Result (List AlertRule)
unfolding list_enabled_alert_rules
find_enabled_by_tenant arrange s tenant_id rs =
    each to_domain (list_enabled_alert_rules arrange s tenant_id rs)

unfoldable pub count_by_tenant : Session → Uuid → List AlertRuleRow → Result ℕ
unfolding count_alert_rules
count_by_tenant s tenant_id rs = count_alert_rules s tenant_id rs

unfoldable pub create_params : AlertRule → CreateAlertRuleParams
unfolding severity_text uuid_to_pgtype
create_params r = record {
  tenant_id = r.tenant_id;
  name = r.name;
  description = r.description;
  enabled = r.enabled;
  condition_type = r.condition_type;
  condition_config = r.condition_config;
  severity = severity_text r.severity;
  alert_title_template = r.alert_title_template;
  alert_message_template = r.alert_message_template;
  trigger_workflow_id = uuid_to_pgtype r.trigger_workflow_id;
  trigger_input_template = r.trigger_input_template;
  cooldown_seconds = r.cooldown_seconds;
  created_by = uuid_to_pgtype r.created_by;
}

unfoldable pub save :
    Session → AlertRule → List AlertRuleRow → Result (Unit {0}) × List AlertRuleRow
unfolding create_alert_rule create_params
save s r rs = let (f, rs') = create_alert_rule s (create_params r) rs in (error_of f, rs')

unfoldable pub update_params : AlertRule → UpdateAlertRuleParams
unfolding severity_text uuid_to_pgtype
update_params r = record {
  id = r.id;
  tenant_id = r.tenant_id;
  name = r.name;
  description = r.description;
  enabled = r.enabled;
  condition_type = r.condition_type;
  condition_config = r.condition_config;
  severity = severity_text r.severity;
  alert_title_template = r.alert_title_template;
  alert_message_template = r.alert_message_template;
  trigger_workflow_id = uuid_to_pgtype r.trigger_workflow_id;
  trigger_input_template = r.trigger_input_template;
  cooldown_seconds = r.cooldown_seconds;
}

unfoldable pub update :
    Session → AlertRule → List AlertRuleRow → Result (Unit {0}) × List AlertRuleRow
unfolding update_alert_rule update_params
update s r rs = let (f, rs') = update_alert_rule s (update_params r) rs in (error_of f, rs')

unfoldable pub delete_found :
    Session → Uuid → Result AlertRule → List AlertRuleRow → Result (Unit {0}) × List AlertRuleRow
unfolding delete_alert_rule
delete_found s id (err e) rs = (err e, rs)
delete_found s id (ok r) rs = delete_alert_rule s id r.tenant_id rs

-- Delete makes two statements, so it has two sessions.
unfoldable pub delete :
    (List AlertRuleRow → List AlertRuleRow)
    → Session
    → Session
    → Uuid
    → List AlertRuleRow
    → Result (Unit {0}) × List AlertRuleRow
unfolding find_by_id delete_found
delete arrange before s id rs = delete_found s id (find_by_id arrange before id rs) rs

unfoldable pub update_last_triggered :
    Session → Uuid → List AlertRuleRow → Result (Unit {0}) × List AlertRuleRow
unfolding update_alert_rule_last_triggered
update_last_triggered s id rs = update_alert_rule_last_triggered s id rs
