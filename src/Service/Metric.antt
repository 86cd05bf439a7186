-- ===== src/Service/Metric.antt =====
-- internal/core/service/metric.go
pub mod Background
pub mod Ingesting
pub mod Defining
pub mod Sampling
use orchestrix_api.Common.{
  ℕ, suc, ◌+◌, ◌/◌, String, Bool, true, false, ◌&&◌, Option, none, some, List, [], ◌∷◌, map, ltb,
  length, ℤ, pos, ltb_ℤ, pos_part, page_offset, override, override_pointer, insert, if◌then◌else◌,
}
use orchestrix_api.Fault.{Error, sentinel, Result, ok, err, is_error}
use orchestrix_api.Domain.Errors.{
  DomainError, batch_too_large, metric_definition_exists, metric_definition_not_found,
}
use orchestrix_api.Domain.Values.{Uuid, Time, Float64}
use orchestrix_api.Domain.Metric.{
  Metric, MetricDefinition, MetricQuery, MetricAggregate, TimeBucket, validate,
}
use orchestrix_api.Port.Inputs.{
  Page, IngestMetricInput, IngestMetricBatchInput, IngestBatchResult, CreateMetricDefinitionInput,
  UpdateMetricDefinitionInput,
}
use orchestrix_api.Port.Call.{
  Ports, evaluate_alerts, evaluate_batch_alerts, History, save_metric, save_metric_batch,
  save_definition, update_definition, delete_definition,
}
use orchestrix_api.Port.Action.{
  Action, ask, write, launch, pure, raise, gets, check, attempt, ◌>>=◌, ◌>>◌,
}
use orchestrix_api.Service.Audit.{set_tenant}
use orchestrix_api.Service.AlertRule as AlertRuleService
use orchestrix_api.Service.AlertRule.{Outcome, returned, panicked}

-- MaxBatchSize
abbrev pub max_batch_size : ℕ
max_batch_size = 10000

-- The literals of Ingest and IngestBatch; a metric without a timestamp takes the given time.
abbrev pub new_metric : Uuid → Uuid → Time → Time → IngestMetricInput → Metric
new_metric id tenant_id now created input = record {
  id = id;
  tenant_id = tenant_id;
  name = input.name;
  value = input.value;
  labels = input.labels;
  source = input.source;
  timestamp = override input.timestamp now;
  created_at = created;
}

-- The literal of CreateDefinition.
abbrev pub new_definition : Uuid → Time → Time → CreateMetricDefinitionInput → MetricDefinition
new_definition id created updated input = record {
  id = id;
  tenant_id = input.tenant_id;
  name = input.name;
  display_name = input.display_name;
  description = input.description;
  unit = input.unit;
  kind = input.kind;
  aggregation = input.aggregation;
  alert_threshold = input.alert_threshold;
  retention_days = input.retention_days;
  created_at = created;
  updated_at = updated;
}

-- The assignments of UpdateDefinition.
unfoldable pub apply_update :
    Time → UpdateMetricDefinitionInput → MetricDefinition → MetricDefinition
apply_update now input d = record d {
  display_name = override_pointer input.display_name d.display_name;
  description = override_pointer input.description d.description;
  unit = override_pointer input.unit d.unit;
  kind = override input.kind d.kind;
  aggregation = override input.aggregation d.aggregation;
  alert_threshold = override_pointer input.alert_threshold d.alert_threshold;
  retention_days = override input.retention_days d.retention_days;
  updated_at = now;
}

-- The page of Query. Both numbers are positive where the division is made.
abbrev pub query_page : ℤ → ℤ → ℤ
query_page offset limit =
    if ltb_ℤ (pos 0) offset && ltb_ℤ (pos 0) limit
    then pos (pos_part offset / pos_part limit + 1)
    else pos 1

abbrev pub named_value : IngestMetricInput → String × Float64
named_value m = (m.name, m.value)

-- errors.Is(err, domain.ErrMetricDefinitionNotFound)
abbrev pub is_definition_not_found : DomainError → Bool
is_definition_not_found metric_definition_not_found = true
is_definition_not_found _ = false

module _ (p : Ports) where
  unfoldable pub ingest : IngestMetricInput → Action Unit
  ingest input = do
    set_tenant p input.tenant_id
    now ← gets λ h. p.host.now h 0
    id ← gets λ h. p.host.new_uuid h 0
    created ← gets λ h. p.host.now h 1
    let metric = new_metric id input.tenant_id now created input
    write (save_metric metric) λ h. p.metrics.save h metric
    launch (evaluate_alerts input.tenant_id input.name input.value)
    pure tt

  -- The loop of IngestBatch: the i-th metric takes the i-th fresh id.
  unfoldable pub new_metrics : History → Uuid → Time → ℕ → List IngestMetricInput → List Metric
  new_metrics h tenant_id now i [] = []
  new_metrics h tenant_id now i (m ∷ ms) =
      new_metric (p.host.new_uuid h i) tenant_id now now m ∷ new_metrics h tenant_id now (suc i) ms

  -- What IngestBatch returns once the batch was handed to the repository.
  unfoldable pub after_batch :
      IngestMetricBatchInput → Result ℕ → Action (IngestBatchResult × Option Error)
  after_batch input (err e) = pure (
    record { ingested = 0; failed = length input.metrics; errors = p.host.error_text e ∷ [] },
    some e,
  )
  after_batch input (ok count) = do
    launch (evaluate_batch_alerts input.tenant_id (map named_value input.metrics))
    pure (record { ingested = count; failed = 0; errors = [] }, none)

  -- An error comes without a result, or with one where the repository failed.
  unfoldable pub ingest_batch : IngestMetricBatchInput → Action (IngestBatchResult × Option Error)
  unfolding after_batch
  ingest_batch input =
      if ltb max_batch_size (length input.metrics) then raise (sentinel batch_too_large) else do
        set_tenant p input.tenant_id
        now ← gets λ h. p.host.now h 0
        metrics ← gets λ h. new_metrics h input.tenant_id now 0 input.metrics
        count ← attempt (write (save_metric_batch metrics) λ h. p.metrics.save_batch h metrics)
        after_batch input count

  unfoldable pub query : MetricQuery → Action (Page Metric)
  query q = do
    check (validate q)
    set_tenant p q.tenant_id
    metrics ← ask "metrics by query" λ h. p.metrics.find_by_query h q
    total ← ask "metrics of query" λ h. p.metrics.count_by_query h q
    pure (record {
      items = metrics;
      total = total;
      page = query_page q.offset q.limit;
      limit = q.limit;
    })

  unfoldable pub get_latest : Uuid → String → List (String × String) → Action Metric
  get_latest tenant_id name labels = do
    set_tenant p tenant_id
    ask "latest metric" λ h. p.metrics.find_latest h tenant_id name labels

  unfoldable pub get_aggregate : MetricQuery → Action MetricAggregate
  get_aggregate q = do
    check (validate q)
    set_tenant p q.tenant_id
    ask "aggregate" λ h. p.metrics.get_aggregate h q

  unfoldable pub get_series : MetricQuery → ℤ → Action (List TimeBucket)
  get_series q bucket_size = do
    check (validate q)
    set_tenant p q.tenant_id
    ask "series" λ h. p.metrics.get_series h q bucket_size

  unfoldable pub list_names : Uuid → String → Action (List String)
  list_names tenant_id prefix = do
    set_tenant p tenant_id
    ask "metric names" λ h. p.metrics.list_names h tenant_id prefix

  unfoldable pub list_definitions : Uuid → ℤ → ℤ → Action (Page MetricDefinition)
  list_definitions tenant_id page limit = do
    set_tenant p tenant_id
    let offset = page_offset page limit
    found ← ask "definitions by tenant" λ h. p.definitions.find_by_tenant h tenant_id limit offset
    total ← ask "definitions of tenant" λ h. p.definitions.count_by_tenant h tenant_id
    pure (record { items = found; total = total; page = page; limit = limit })

  unfoldable pub get_definition : Uuid → String → Action MetricDefinition
  get_definition tenant_id name = do
    set_tenant p tenant_id
    ask "definition by name" λ h. p.definitions.find_by_name h tenant_id name

  -- The tests that CreateDefinition makes of what it found.
  abbrev pub check_absent : Result MetricDefinition → Action Unit
  check_absent (ok d) = raise (sentinel metric_definition_exists)
  check_absent (err e) = if is_error is_definition_not_found e then pure tt else raise e

  unfoldable pub create_definition : CreateMetricDefinitionInput → Action MetricDefinition
  create_definition input = do
    set_tenant p input.tenant_id
    found ←
        attempt
          (ask "definition by name" λ h. p.definitions.find_by_name h input.tenant_id input.name)
    check_absent found
    id ← gets λ h. p.host.new_uuid h 0
    created ← gets λ h. p.host.now h 0
    updated ← gets λ h. p.host.now h 1
    let definition = new_definition id created updated input
    write (save_definition definition) λ h. p.definitions.save h definition
    pure definition

  unfoldable pub update_metric_definition :
      Uuid → String → UpdateMetricDefinitionInput → Action MetricDefinition
  update_metric_definition tenant_id name input = do
    set_tenant p tenant_id
    existing ← ask "definition by name" λ h. p.definitions.find_by_name h tenant_id name
    now ← gets λ h. p.host.now h 0
    let definition = apply_update now input existing
    write (update_definition definition) λ h. p.definitions.update h definition
    pure definition

  unfoldable pub delete_metric_definition : Uuid → String → Action Unit
  delete_metric_definition tenant_id name = do
    set_tenant p tenant_id
    found ← ask "definition by name" λ h. p.definitions.find_by_name h tenant_id name
    write (delete_definition tenant_id name) λ h. p.definitions.delete h tenant_id name
