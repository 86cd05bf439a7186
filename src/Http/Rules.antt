-- ===== src/Http/Rules.antt =====
-- internal/adapter/driving/http/alertrule.go: AlertRuleHandler.
use orchestrix_api.Common.{
  String, Bool, Option, none, some, [], ◌∷◌, ℤ, pos, wrap, str_eq, if◌then◌else◌,
}
use orchestrix_api.Domain.Values.{Uuid, Raw, absent}
use orchestrix_api.Domain.Alert.{AlertSeverity}
use orchestrix_api.Domain.AlertRule.{AlertRule, ThresholdCondition}
use orchestrix_api.Engine.Definition.{Fields}
use orchestrix_api.Auth.{User}
use orchestrix_api.Port.Inputs.{CreateAlertRuleInput, UpdateAlertRuleInput}
use orchestrix_api.Port.Call.{Ports}
use orchestrix_api.Postgres.Texts.{severity_of}
use orchestrix_api.Service.AlertRule as RuleService
use orchestrix_api.Http.Handling.{
  Params, Handler, refused, replied, no_content, with_user, with_id, with_body, serve, list_with,
  case, is_alert_rule_not_found,
}

-- A map is none where the request has none.
pub record CreateAlertRuleRequest : Type 0 where
  pub name : String
  pub description : Option String
  pub condition_type : String
  pub condition_config : Option Fields
  pub severity : String
  pub alert_title_template : String
  pub alert_message_template : Option String
  pub trigger_workflow_id : Option Uuid
  pub trigger_input_template : Option Fields
  pub cooldown_seconds : Option ℤ

pub record UpdateAlertRuleRequest : Type 0 where
  pub name : Option String
  pub description : Option String
  pub enabled : Option Bool
  pub condition_type : Option String
  pub condition_config : Option Fields
  pub severity : Option String
  pub alert_title_template : Option String
  pub alert_message_template : Option String
  pub trigger_workflow_id : Option Uuid
  pub trigger_input_template : Option Fields
  pub cooldown_seconds : Option ℤ

-- What json.Marshal makes of a condition and of a template; its error is dropped.
pub record RuleCodec : Type 0 where
  pub marshal_condition : Option Fields → Raw ThresholdCondition
  pub marshal_template : Option Fields → Raw String

-- `severity := domain.AlertSeverityWarning; if req.Severity != ""`
unfoldable pub severity_or_warning : String → AlertSeverity
unfolding severity_of
severity_or_warning s = if str_eq s "" then AlertSeverity.warning else severity_of s

-- `cooldownSeconds := int32(300)`
unfoldable pub cooldown_or_default : Option ℤ → ℤ
cooldown_or_default none = pos 300
cooldown_or_default (some n) = wrap 32 n

-- What is marshalled only if the request has it.
abbrev pub marshalled : {A : Type 0} → (Option Fields → Raw A) → Option Fields → Raw A
marshalled marshal none = absent
marshalled marshal (some fs) = marshal (some fs)

unfoldable pub severity_pointer : Option String → Option AlertSeverity
unfolding severity_of
severity_pointer none = none
severity_pointer (some s) = some (severity_of s)

unfoldable pub cooldown_pointer : Option ℤ → Option ℤ
cooldown_pointer none = none
cooldown_pointer (some n) = some (wrap 32 n)

unfoldable pub update_input : RuleCodec → UpdateAlertRuleRequest → UpdateAlertRuleInput
unfolding severity_pointer cooldown_pointer
update_input c r = record {
  name = r.name;
  description = r.description;
  enabled = r.enabled;
  condition_type = r.condition_type;
  condition_config = marshalled c.marshal_condition r.condition_config;
  severity = severity_pointer r.severity;
  alert_title_template = r.alert_title_template;
  alert_message_template = r.alert_message_template;
  trigger_workflow_id = r.trigger_workflow_id;
  trigger_input_template = marshalled c.marshal_template r.trigger_input_template;
  cooldown_seconds = cooldown_pointer r.cooldown_seconds;
}

module _ (p : Ports) (c : RuleCodec) where
  unfoldable pub create_input : User → CreateAlertRuleRequest → CreateAlertRuleInput
  unfolding severity_or_warning cooldown_or_default
  create_input u r = record {
    tenant_id = u.tenant_id;
    name = r.name;
    description = r.description;
    condition_type = r.condition_type;
    condition_config = c.marshal_condition r.condition_config;
    severity = severity_or_warning r.severity;
    alert_title_template = r.alert_title_template;
    alert_message_template = r.alert_message_template;
    trigger_workflow_id = r.trigger_workflow_id;
    trigger_input_template = c.marshal_template r.trigger_input_template;
    cooldown_seconds = cooldown_or_default r.cooldown_seconds;
    created_by = (p.host.parse_uuid u.id).0;
  }

  unfoldable pub list : Params → Handler AlertRule
  unfolding list_with
  list q =
      list_with "failed to list alert rules"
        (λ u page limit. RuleService.list p u.tenant_id page limit) q

  unfoldable pub get : Params → Handler AlertRule
  unfolding with_user with_id serve
  get q = with_user q.user λ u. with_id p q.id λ id.
      serve (case is_alert_rule_not_found 404 "alert rule not found" ∷ [])
        "failed to get alert rule" (λ r. replied 200 r) (RuleService.get_by_id p id)

  unfoldable pub create_valid : User → CreateAlertRuleRequest → Handler AlertRule
  unfolding serve create_input
  create_valid u r h =
      if str_eq r.name ""
      then (refused 400 "name is required", h)
      else if str_eq r.condition_type ""
      then (refused 400 "condition_type is required", h)
      else if str_eq r.alert_title_template ""
      then (refused 400 "alert_title_template is required", h)
      else serve [] "failed to create alert rule" (λ a. replied 201 a)
          (RuleService.create p (create_input u r)) h

  unfoldable pub create : Option CreateAlertRuleRequest → Params → Handler AlertRule
  unfolding with_user with_body create_valid
  create body q = with_user q.user λ u. with_body body λ r. create_valid u r

  unfoldable pub update : Option UpdateAlertRuleRequest → Params → Handler AlertRule
  unfolding with_user with_id with_body serve update_input
  update body q = with_user q.user λ u. with_id p q.id λ id. with_body body λ r.
      serve (case is_alert_rule_not_found 404 "alert rule not found" ∷ [])
        "failed to update alert rule" (λ a. replied 200 a)
        (RuleService.update p id (update_input c r))

  unfoldable pub delete : Params → Handler AlertRule
  unfolding with_user with_id serve
  delete q = with_user q.user λ u. with_id p q.id λ id.
      serve (case is_alert_rule_not_found 404 "alert rule not found" ∷ [])
        "failed to delete alert rule" (λ done. no_content) (RuleService.delete p id)
