-- ===== src/Domain/Metric.antt =====
-- internal/core/domain/metric.go
pub mod Query
use orchestrix_api.Common.{
  ℕ, String, Bool, true, false, not, ◌&&◌, Option, none, some, List, ◌==◌, ltb, str_eq, ℤ,
  if◌then◌else◌,
}
use orchestrix_api.Domain.Errors.{
  DomainError, invalid_metric_query, invalid_metric_name, invalid_time_range,
}
use orchestrix_api.Domain.Values.{Uuid, nil_uuid, Time, Float64}

pub record Metric : Type 0 where
  pub id : Uuid
  pub tenant_id : Uuid
  pub name : String
  pub value : Float64
  pub labels : List (String × String)
  pub source : Option String
  pub timestamp : Time
  pub created_at : Time

unfoldable pub is_valid_metric : Metric → Bool
is_valid_metric m = not (str_eq m.name "") && not (m.tenant_id == nil_uuid)

pub data MetricType : Type 0 where
  gauge counter histogram summary : MetricType
  unknown : String → MetricType

unfoldable pub is_valid_metric_type : MetricType → Bool
is_valid_metric_type (MetricType.unknown s) = false
is_valid_metric_type _ = true

pub data AggregationType : Type 0 where
  avg sum min max last count p50 p95 p99 : AggregationType
  unknown : String → AggregationType

unfoldable pub is_valid_aggregation_type : AggregationType → Bool
is_valid_aggregation_type (AggregationType.unknown s) = false
is_valid_aggregation_type _ = true

pub record AlertThreshold : Type 0 where
  pub warning : Option Float64
  pub critical : Option Float64

pub record MetricDefinition : Type 0 where
  pub id : Uuid
  pub tenant_id : Uuid
  pub name : String
  pub display_name : Option String
  pub description : Option String
  pub unit : Option String
  pub kind : MetricType
  pub aggregation : AggregationType
  pub alert_threshold : Option AlertThreshold
  pub retention_days : ℤ
  pub created_at : Time
  pub updated_at : Time

-- MetricAggregate
pub record MetricAggregate : Type 0 where
  pub count : ℕ
  pub average : Float64
  pub min : Float64
  pub max : Float64
  pub sum : Float64
  pub p50 : Option Float64
  pub p95 : Option Float64
  pub p99 : Option Float64

pub record TimeBucket : Type 0 where
  pub bucket : Time
  pub count : ℕ
  pub average : Float64
  pub min : Float64
  pub max : Float64
  pub sum : Float64

pub record MetricQuery : Type 0 where
  pub tenant_id : Uuid
  pub name : String
  pub labels : List (String × String)
  pub start_time : Time
  pub end_time : Time
  pub limit : ℤ
  pub offset : ℤ
  pub bucket_size : Option ℤ
  pub aggregation : Option AggregationType

-- The zero time is 0. None is nil.
unfoldable pub validate : MetricQuery → Option DomainError
validate q =
    if q.tenant_id == nil_uuid
    then some invalid_metric_query
    else if str_eq q.name ""
    then some invalid_metric_name
    else if not (q.start_time == 0) && (not (q.end_time == 0) && ltb q.end_time q.start_time)
    then some invalid_time_range
    else none
