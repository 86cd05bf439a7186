-- ===== src/Tests/Evaluating.antt =====
-- The evaluator's theorems on one rule and one metric.
use orchestrix_api.Common.{
  String, ◌≡◌, ◌↔◌, refl, true, false, Option, none, some, List, [], ◌∷◌, All, map, arith,
}
use orchestrix_api.Fault.{Error, other, ok}
use orchestrix_api.Domain.Values.{Raw, absent, parsed, at_rank}
use orchestrix_api.Domain.AlertRule.{ThresholdCondition}
use orchestrix_api.Domain.AlertRule.Threshold.{Fires, Operator}
use orchestrix_api.Engine.Definition.{no_fields}
use orchestrix_api.Db.{select}
use orchestrix_api.Db.Rows.{WorkflowRow, AlertRuleRow}
use orchestrix_api.Db.Rules.{is_for_metric}
use orchestrix_api.Postgres.Rules.{to_domain}
use orchestrix_api.Evaluator.Templates.{
  Piece, literal, variable, IsPiece, written, wanted, convert_template_delimiters,
  convert_template_delimiters-written,
}
use orchestrix_api.Evaluator.Deciding.{MetricData, evaluate_rule, Meets, evaluate_rule_iff}
use orchestrix_api.Evaluator.Triggering.{World, Environment, evaluate_metric}
use orchestrix_api.Evaluator.Guarding.{IsAccounted, evaluate_metric-IsAccounted}
use orchestrix_api.Evaluator.Raising.{origin, raised, evaluate_metric_lem}
use orchestrix_api.Evaluator.Diverging.{Fires-not-for_metric}
use orchestrix_api.Tests.Storage.{a_session, a_rule_row}

abbrev a_template : List Piece
a_template = literal (b'a' ∷ b' ' ∷ []) ∷ variable (b'x' ∷ []) ∷ literal (b'!' ∷ []) ∷ []

are_pieces : All IsPiece a_template
are_pieces = (
  (ground arith, (ground arith, tt)),
  ((ground arith, (ground arith, tt)), ((ground arith, tt), tt)),
)

convert_template_delimiters-written_example :
    convert_template_delimiters (written a_template) ≡ wanted a_template
convert_template_delimiters-written_example =
    convert_template_delimiters-written a_template are_pieces

abbrev a_metric : MetricData
a_metric = record { name = "cpu"; value = at_rank 95; labels = ""; source = ""; timestamp = 40 }

abbrev unreadable : Raw ThresholdCondition → Error
unreadable config = other "unexpected end of JSON input"

abbrev name_of : Raw ThresholdCondition → Option String
name_of (parsed cond) = some cond.metric_name
name_of config = none

evaluate_rule_iff_example : (evaluate_rule unreadable a_rule_row a_metric ≡ ok true) ↔ (
    (cond : ThresholdCondition) × (a_rule_row.condition_config ≡ parsed cond) × Meets a_metric cond)
evaluate_rule_iff_example = evaluate_rule_iff unreadable a_rule_row a_metric

abbrev a_workflow_row : WorkflowRow
a_workflow_row = record {
  id = 7;
  tenant_id = 1;
  name = "nightly";
  description = none;
  definition = absent;
  schedule = none;
  status = "active";
  version = 1;
  created_by = none;
  created_at = 10;
  updated_at = 10;
}

abbrev a_world : World
a_world = record {
  rules = a_rule_row ∷ [];
  alerts = [];
  executions = [];
  workflows = a_workflow_row ∷ [];
  starts = [];
  statements = 0;
}

abbrev an_environment : Environment
an_environment = record {
  db = λ n. a_session;
  start = λ before st. ok "run-1";
  clock = λ n. 100;
  engine = λ s d. none;
  metric_name_of = name_of;
  partial_condition = λ config. record { metric_name = ""; operator = ""; threshold = at_rank 0 };
  unmarshal_error = unreadable;
  input_template_of = λ raw. none;
  has_steps_key = λ raw. false;
  marshal_input = λ fs. absent;
  metadata = λ m r cond. absent;
  default_input = λ alert rule m. no_fields;
  rfc3339 = λ t. "";
  uuid_text = λ id. "7";
  error_text = λ e. "failed";
}

evaluate_metric-IsAccounted_example :
    IsAccounted 1 (evaluate_metric an_environment 1 a_metric a_world).1
evaluate_metric-IsAccounted_example =
    evaluate_metric-IsAccounted an_environment 1 a_metric a_world tt

evaluate_metric_lem_example :
    ((evaluate_metric an_environment 1 a_metric a_world).0 ≡ ok tt)
    × (map origin (evaluate_metric an_environment 1 a_metric a_world).1.alerts
        ≡ raised an_environment 1 a_metric
            (select (is_for_metric name_of a_session 1 "cpu") (a_rule_row ∷ []))
            [])
evaluate_metric_lem_example = evaluate_metric_lem an_environment 1 a_metric a_world (λ n. refl)

abbrev a_threshold_row : AlertRuleRow
a_threshold_row = record a_rule_row { condition_type = "threshold" }

fires : Fires (at_rank 95) (to_domain a_threshold_row)
unfolding to_domain
fires = record {
  condition = record { metric_name = "cpu"; operator = "gt"; threshold = at_rank 90 };
  operator = Operator.gt;
  of_type = refl;
  configured = refl;
  spelled = refl;
  holds = ground arith;
}

Fires-not-for_metric_example : is_for_metric name_of a_session 1 "cpu" a_threshold_row ≡ false
Fires-not-for_metric_example =
    Fires-not-for_metric name_of a_session 1 "cpu" (at_rank 95) a_threshold_row fires
