-- ===== src/Domain/AlertRule.antt =====
-- internal/core/domain/alertrule.go. `now` is the reading of `time.Now()` in the method.
pub mod Threshold
pub mod Cooldown
use orchestrix_api.Common.{
  ℕ, String, Bool, true, false, not, Option, none, some, str_eq, ℤ, pos, sub_ℕ, leb_ℤ, scale,
  if◌then◌else◌,
}
use orchestrix_api.Domain.Errors.{
  DomainError, invalid_condition_type, invalid_condition_config, invalid_operator,
}
use orchestrix_api.Domain.Values.{
  Uuid, Time, nanoseconds_per_second, Raw, absent, malformed, mistyped, parsed, Float64, gt_float,
  ge_float, lt_float, le_float, eq_float, ne_float,
}
use orchestrix_api.Domain.Alert.{AlertSeverity}

pub record ThresholdCondition : Type 0 where
  pub metric_name : String
  pub operator : String
  pub threshold : Float64

-- `cooldown_seconds` is an int32.
pub record AlertRule : Type 0 where
  pub id : Uuid
  pub tenant_id : Uuid
  pub name : String
  pub description : Option String
  pub enabled : Bool
  pub condition_type : String
  pub condition_config : Raw ThresholdCondition
  pub severity : AlertSeverity
  pub alert_title_template : String
  pub alert_message_template : Option String
  pub trigger_workflow_id : Option Uuid
  pub trigger_input_template : Raw String
  pub cooldown_seconds : ℤ
  pub last_triggered_at : Option Time
  pub created_by : Option Uuid
  pub created_at : Time
  pub updated_at : Time

-- `time.Since(last) >= cooldown`; a clock that went back gives a negative time since.
abbrev cooled_down : Time → ℤ → Option Time → Bool
cooled_down now cooldown none = true
cooled_down now cooldown (some last) =
    leb_ℤ (scale nanoseconds_per_second cooldown) (sub_ℕ now last)

unfoldable pub can_trigger : Time → AlertRule → Bool
can_trigger now r =
    if not r.enabled then false else cooled_down now r.cooldown_seconds r.last_triggered_at

unfoldable pub mark_triggered : Time → AlertRule → AlertRule
mark_triggered now r = record r { last_triggered_at = some now }

-- The value of a call that returns (value, error): the error stands on the left.
pub data Checked {ℓ} (A : Type ℓ) : Type ℓ where
  failed : DomainError → Checked A
  value : A → Checked A

-- `absent` is a nil message, which `json.Unmarshal` refuses too.
abbrev decoded : Raw ThresholdCondition → Checked ThresholdCondition
decoded absent = failed invalid_condition_config
decoded malformed = failed invalid_condition_config
decoded mistyped = failed invalid_condition_config
decoded (parsed cond) = value cond

unfoldable pub parse_threshold_condition : AlertRule → Checked ThresholdCondition
parse_threshold_condition r =
    if not (str_eq r.condition_type "threshold")
    then failed invalid_condition_type
    else decoded r.condition_config

-- the `switch` of EvaluateThreshold
unfoldable pub compare_threshold : String → Float64 → Float64 → Checked Bool
compare_threshold op v t =
    if str_eq op "gt"
    then value (gt_float v t)
    else if str_eq op "gte"
    then value (ge_float v t)
    else if str_eq op "lt"
    then value (lt_float v t)
    else if str_eq op "lte"
    then value (le_float v t)
    else if str_eq op "eq"
    then value (eq_float v t)
    else if str_eq op "neq"
    then value (ne_float v t)
    else failed invalid_operator

abbrev pub evaluate_with : Checked ThresholdCondition → Float64 → Checked Bool
evaluate_with (failed e) v = failed e
evaluate_with (value cond) v = compare_threshold cond.operator v cond.threshold

unfoldable pub evaluate_threshold : Float64 → AlertRule → Checked Bool
evaluate_threshold v r = evaluate_with (parse_threshold_condition r) v
