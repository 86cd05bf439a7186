-- ===== src/Db/Rules.antt =====
-- internal/db/alert_rules.sql.go: the queries that the alert rule adapter and the evaluator run.
use orchestrix_api.Common.{
  ℕ, String, Bool, true, false, Option, none, some, List, ◌∷◌, ℤ, ◌&&◌, length, override_pointer,
  sub_ℕ, scale, ltb_ℤ, str_eq, ◌==◌ as nat_eq,
}
use orchestrix_api.Fault.{Result, ok, err}
use orchestrix_api.Domain.Values.{Uuid, Time, Raw, override_raw, nanoseconds_per_second}
use orchestrix_api.Domain.AlertRule.{ThresholdCondition}
use orchestrix_api.Db.{
  Session, Fetched, row, broken, first, select, modify, remove, page, fetch, answer, change,
}
use orchestrix_api.Db.Rows.{AlertRuleRow}

pub record CreateAlertRuleParams : Type 0 where
  pub tenant_id : Uuid
  pub name : String
  pub description : Option String
  pub enabled : Bool
  pub condition_type : String
  pub condition_config : Raw ThresholdCondition
  pub severity : String
  pub alert_title_template : String
  pub alert_message_template : Option String
  pub trigger_workflow_id : Option Uuid
  pub trigger_input_template : Raw String
  pub cooldown_seconds : ℤ
  pub created_by : Option Uuid

pub record UpdateAlertRuleParams : Type 0 where
  pub id : Uuid
  pub tenant_id : Uuid
  pub name : String
  pub description : Option String
  pub enabled : Bool
  pub condition_type : String
  pub condition_config : Raw ThresholdCondition
  pub severity : String
  pub alert_title_template : String
  pub alert_message_template : Option String
  pub trigger_workflow_id : Option Uuid
  pub trigger_input_template : Raw String
  pub cooldown_seconds : ℤ

abbrev pub new_rule : Session → CreateAlertRuleParams → AlertRuleRow
new_rule s p = record {
  id = s.fresh;
  tenant_id = p.tenant_id;
  name = p.name;
  description = p.description;
  enabled = p.enabled;
  condition_type = p.condition_type;
  condition_config = p.condition_config;
  severity = p.severity;
  alert_title_template = p.alert_title_template;
  alert_message_template = p.alert_message_template;
  trigger_workflow_id = p.trigger_workflow_id;
  trigger_input_template = p.trigger_input_template;
  cooldown_seconds = p.cooldown_seconds;
  last_triggered_at = none;
  created_by = p.created_by;
  created_at = s.now;
  updated_at = s.now;
}

unfoldable pub create_alert_rule :
    Session → CreateAlertRuleParams → List AlertRuleRow → Fetched AlertRuleRow × List AlertRuleRow
create_alert_rule s p rs = change s.fault (row (new_rule s p), new_rule s p ∷ rs) (λ e. broken e) rs

abbrev pub has_id : Uuid → AlertRuleRow → Bool
has_id id r = nat_eq r.id id

abbrev pub of_tenant : Uuid → AlertRuleRow → Bool
of_tenant tenant_id r = nat_eq r.tenant_id tenant_id

abbrev pub is_key : Uuid → Uuid → AlertRuleRow → Bool
is_key id tenant_id r = has_id id r && of_tenant tenant_id r

unfoldable pub get_alert_rule : Session → Uuid → Uuid → List AlertRuleRow → Fetched AlertRuleRow
unfolding select
get_alert_rule s id tenant_id rs = fetch s.fault (first (select (is_key id tenant_id) rs))

unfoldable pub delete_alert_rule :
    Session → Uuid → Uuid → List AlertRuleRow → Result (Unit {0}) × List AlertRuleRow
unfolding remove
delete_alert_rule s id tenant_id rs =
    change s.fault (ok tt, remove (is_key id tenant_id) rs) (λ e. err e) rs

unfoldable pub list_alert_rules :
    (List AlertRuleRow → List AlertRuleRow)
    → Session
    → Uuid
    → ℤ
    → ℤ
    → List AlertRuleRow
    → Result (List AlertRuleRow)
unfolding select page
list_alert_rules arrange s tenant_id limit offset rs =
    answer s.fault (page s limit offset (arrange (select (of_tenant tenant_id) rs)))

-- Here `arrange` is `ORDER BY name`.
unfoldable pub list_enabled_alert_rules :
    (List AlertRuleRow → List AlertRuleRow)
    → Session
    → Uuid
    → List AlertRuleRow
    → Result (List AlertRuleRow)
unfolding select
list_enabled_alert_rules arrange s tenant_id rs =
    answer s.fault (ok (arrange (select (λ r. of_tenant tenant_id r && r.enabled) rs)))

unfoldable pub count_alert_rules : Session → Uuid → List AlertRuleRow → Result ℕ
unfolding select
count_alert_rules s tenant_id rs = answer s.fault (ok (length (select (of_tenant tenant_id) rs)))

-- `last_triggered_at < NOW() - cooldown`
abbrev pub is_cooled_down : Session → AlertRuleRow → Option Time → Bool
is_cooled_down s r none = true
is_cooled_down s r (some last) =
    ltb_ℤ (scale nanoseconds_per_second r.cooldown_seconds) (sub_ℕ s.now last)

abbrev pub is_text : Option String → String → Bool
is_text none s = false
is_text (some t) s = str_eq t s

-- `metric_name_of` is what `condition_config->>'metric_name'` reads.
abbrev pub is_for_metric :
    (Raw ThresholdCondition → Option String) → Session → Uuid → String → AlertRuleRow → Bool
is_for_metric metric_name_of s tenant_id name r =
    of_tenant tenant_id r
    && r.enabled
    && str_eq r.condition_type "metric_threshold"
    && is_text (metric_name_of r.condition_config) name
    && is_cooled_down s r r.last_triggered_at

unfoldable pub get_alert_rules_for_metric :
    (Raw ThresholdCondition → Option String)
    → Session
    → Uuid
    → String
    → List AlertRuleRow
    → Result (List AlertRuleRow)
unfolding select
get_alert_rules_for_metric metric_name_of s tenant_id name rs =
    answer s.fault (ok (select (is_for_metric metric_name_of s tenant_id name) rs))

-- COALESCE keeps a column whose parameter is NULL.
abbrev pub updated_rule : Session → UpdateAlertRuleParams → AlertRuleRow → AlertRuleRow
updated_rule s p r = record r {
  name = p.name;
  description = override_pointer p.description r.description;
  enabled = p.enabled;
  condition_type = p.condition_type;
  condition_config = override_raw p.condition_config r.condition_config;
  severity = p.severity;
  alert_title_template = p.alert_title_template;
  alert_message_template = override_pointer p.alert_message_template r.alert_message_template;
  trigger_workflow_id = p.trigger_workflow_id;
  trigger_input_template = p.trigger_input_template;
  cooldown_seconds = p.cooldown_seconds;
  updated_at = s.now;
}

unfoldable pub update_alert_rule :
    Session → UpdateAlertRuleParams → List AlertRuleRow → Fetched AlertRuleRow × List AlertRuleRow
unfolding select modify
update_alert_rule s p rs =
    let rs' = modify (is_key p.id p.tenant_id) (updated_rule s p) rs in
    change s.fault (first (select (is_key p.id p.tenant_id) rs'), rs') (λ e. broken e) rs

unfoldable pub update_alert_rule_last_triggered :
    Session → Uuid → List AlertRuleRow → Result (Unit {0}) × List AlertRuleRow
unfolding modify
update_alert_rule_last_triggered s id rs =
    change s.fault
      (
        ok tt,
        modify (has_id id) (λ r. record r { last_triggered_at = some s.now; updated_at = s.now })
            rs,
      )
      (λ e. err e) rs
