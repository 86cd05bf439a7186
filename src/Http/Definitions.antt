-- ===== src/Http/Definitions.antt =====
-- internal/adapter/driving/http/metric.go: the handlers of the definitions of metrics. The name of the
-- URL stands in the place of the id.
use orchestrix_api.Common.{
  String, Bool, true, false, not, ◌&&◌, Option, none, some, List, [], ◌∷◌, ℤ, pos, ltb_ℤ, str_eq,
  if◌then◌else◌,
}
use orchestrix_api.Domain.Errors.{DomainError}
use orchestrix_api.Domain.Metric.{
  MetricType, AggregationType, AlertThreshold, MetricDefinition, is_valid_metric_type,
  is_valid_aggregation_type,
}
use orchestrix_api.Auth.{User}
use orchestrix_api.Port.Inputs.{CreateMetricDefinitionInput, UpdateMetricDefinitionInput}
use orchestrix_api.Port.Call.{Ports}
use orchestrix_api.Postgres.Texts.{of_text}
use orchestrix_api.Service.Metric as MetricService
use orchestrix_api.Service.Metric.{is_definition_not_found}
use orchestrix_api.Http.Handling.{
  Params, Handler, refused, replied, no_content, with_user, with_body, serve, list_with, case,
}

-- domain.MetricType(text) and domain.AggregationType(text)
abbrev metric_type_text : MetricType → String
metric_type_text MetricType.gauge = "gauge"
metric_type_text MetricType.counter = "counter"
metric_type_text MetricType.histogram = "histogram"
metric_type_text MetricType.summary = "summary"
metric_type_text (MetricType.unknown s) = s

abbrev metric_types : List MetricType
metric_types =
    MetricType.gauge ∷ MetricType.counter ∷ MetricType.histogram ∷ MetricType.summary ∷ []

unfoldable pub metric_type_of : String → MetricType
unfolding of_text
metric_type_of s = of_text metric_type_text MetricType.unknown metric_types s

abbrev aggregation_text : AggregationType → String
aggregation_text AggregationType.avg = "avg"
aggregation_text AggregationType.sum = "sum"
aggregation_text AggregationType.min = "min"
aggregation_text AggregationType.max = "max"
aggregation_text AggregationType.last = "last"
aggregation_text AggregationType.count = "count"
aggregation_text AggregationType.p50 = "p50"
aggregation_text AggregationType.p95 = "p95"
aggregation_text AggregationType.p99 = "p99"
aggregation_text (AggregationType.unknown s) = s

abbrev aggregations : List AggregationType
aggregations =
    AggregationType.avg ∷ AggregationType.sum ∷ AggregationType.min ∷ AggregationType.max
    ∷ AggregationType.last ∷ AggregationType.count ∷ AggregationType.p50 ∷ AggregationType.p95
    ∷ AggregationType.p99 ∷ []

unfoldable pub aggregation_of : String → AggregationType
unfolding of_text
aggregation_of s = of_text aggregation_text AggregationType.unknown aggregations s

pub record CreateMetricDefinitionRequest : Type 0 where
  pub name : String
  pub display_name : Option String
  pub description : Option String
  pub unit : Option String
  pub kind : String
  pub aggregation : String
  pub alert_threshold : Option AlertThreshold
  pub retention_days : Option ℤ

pub record UpdateMetricDefinitionRequest : Type 0 where
  pub display_name : Option String
  pub description : Option String
  pub unit : Option String
  pub kind : Option String
  pub aggregation : Option String
  pub alert_threshold : Option AlertThreshold
  pub retention_days : Option ℤ

abbrev pub is_definition_exists : DomainError → Bool
is_definition_exists DomainError.metric_definition_exists = true
is_definition_exists _ = false

-- `retentionDays := 30`
unfoldable pub retention_or_default : Option ℤ → ℤ
retention_or_default none = pos 30
retention_or_default (some n) = if ltb_ℤ (pos 0) n then n else pos 30

unfoldable pub create_input : User → CreateMetricDefinitionRequest → CreateMetricDefinitionInput
unfolding metric_type_of aggregation_of retention_or_default
create_input u r = record {
  tenant_id = u.tenant_id;
  name = r.name;
  display_name = r.display_name;
  description = r.description;
  unit = r.unit;
  kind = if str_eq r.kind "" then MetricType.gauge else metric_type_of r.kind;
  aggregation =
      if str_eq r.aggregation "" then AggregationType.avg else aggregation_of r.aggregation;
  alert_threshold = r.alert_threshold;
  retention_days = retention_or_default r.retention_days;
}

-- A pointer to a text that is given and names no constant.
unfoldable pub is_invalid_type : Option String → Bool
unfolding metric_type_of is_valid_metric_type
is_invalid_type none = false
is_invalid_type (some s) = not (is_valid_metric_type (metric_type_of s))

unfoldable pub is_invalid_aggregation : Option String → Bool
unfolding aggregation_of is_valid_aggregation_type
is_invalid_aggregation none = false
is_invalid_aggregation (some s) = not (is_valid_aggregation_type (aggregation_of s))

unfoldable pub type_pointer : Option String → Option MetricType
unfolding metric_type_of
type_pointer none = none
type_pointer (some s) = some (metric_type_of s)

unfoldable pub aggregation_pointer : Option String → Option AggregationType
unfolding aggregation_of
aggregation_pointer none = none
aggregation_pointer (some s) = some (aggregation_of s)

unfoldable pub update_input : UpdateMetricDefinitionRequest → UpdateMetricDefinitionInput
unfolding type_pointer aggregation_pointer
update_input r = record {
  display_name = r.display_name;
  description = r.description;
  unit = r.unit;
  kind = type_pointer r.kind;
  aggregation = aggregation_pointer r.aggregation;
  alert_threshold = r.alert_threshold;
  retention_days = r.retention_days;
}

module _ (p : Ports) where
  unfoldable pub list : Params → Handler MetricDefinition
  unfolding list_with
  list q =
      list_with "failed to list metric definitions"
        (λ u page limit. MetricService.list_definitions p u.tenant_id page limit) q

  unfoldable pub get : Params → Handler MetricDefinition
  unfolding with_user serve
  get q = with_user q.user λ u.
      serve (case is_definition_not_found 404 "metric definition not found" ∷ [])
        "failed to get metric definition" (λ d. replied 200 d)
        (MetricService.get_definition p u.tenant_id q.id)

  unfoldable pub create_valid : User → CreateMetricDefinitionRequest → Handler MetricDefinition
  unfolding serve create_input metric_type_of aggregation_of is_valid_metric_type
      is_valid_aggregation_type
  create_valid u r h =
      if str_eq r.name ""
      then (refused 400 "name is required", h)
      else if not (str_eq r.kind "") && not (is_valid_metric_type (metric_type_of r.kind))
      then (refused 400 "invalid metric type", h)
      else if not (str_eq r.aggregation "")
          && not (is_valid_aggregation_type (aggregation_of r.aggregation))
      then (refused 400 "invalid aggregation type", h)
      else serve (case is_definition_exists 409 "metric definition already exists" ∷ [])
          "failed to create metric definition" (λ d. replied 201 d)
          (MetricService.create_definition p (create_input u r)) h

  unfoldable pub create : Option CreateMetricDefinitionRequest → Params → Handler MetricDefinition
  unfolding with_user with_body create_valid
  create body q = with_user q.user λ u. with_body body λ r. create_valid u r

  unfoldable pub update_valid :
      User → String → UpdateMetricDefinitionRequest → Handler MetricDefinition
  unfolding serve update_input is_invalid_type is_invalid_aggregation
  update_valid u name r h =
      if is_invalid_type r.kind
      then (refused 400 "invalid metric type", h)
      else if is_invalid_aggregation r.aggregation
      then (refused 400 "invalid aggregation type", h)
      else serve (case is_definition_not_found 404 "metric definition not found" ∷ [])
          "failed to update metric definition" (λ d. replied 200 d)
          (MetricService.update_metric_definition p u.tenant_id name (update_input r)) h

  unfoldable pub update : Option UpdateMetricDefinitionRequest → Params → Handler MetricDefinition
  unfolding with_user with_body update_valid
  update body q = with_user q.user λ u. with_body body λ r. update_valid u q.id r

  unfoldable pub delete : Params → Handler MetricDefinition
  unfolding with_user serve
  delete q = with_user q.user λ u.
      serve (case is_definition_not_found 404 "metric definition not found" ∷ [])
        "failed to delete metric definition" (λ done. no_content)
        (MetricService.delete_metric_definition p u.tenant_id q.id)
