-- ===== src/Tests/Metrics.antt =====
-- The metric service's theorems on a small batch.
use orchestrix_api.Common.{
  ◌≡◌, none, some, [], ◌∷◌, pos, lookup, entries_of, is_some, if◌then◌else◌,
}
use orchestrix_api.Domain.Values.{at_rank}
use orchestrix_api.Domain.Metric.{MetricType, AggregationType}
use orchestrix_api.Port.Inputs.{
  IngestMetricInput, IngestMetricBatchInput, CreateMetricDefinitionInput,
}
use orchestrix_api.Service.Metric.{ingest_batch, create_definition}
use orchestrix_api.Service.Metric.Background.{last_values}
use orchestrix_api.Service.Metric.Ingesting.{IngestedBatch, ingest_batch_lem}
use orchestrix_api.Service.Metric.Sampling.{latest, last_values_lem}
use orchestrix_api.Service.Metric.Defining.{Created, create_definition_lem}
use orchestrix_api.Tests.Fixtures.{adapters}

abbrev low_cpu : IngestMetricInput
low_cpu = record {
  tenant_id = 1;
  name = "cpu";
  value = at_rank 40;
  labels = [];
  source = none;
  timestamp = some 30;
}

abbrev high_cpu : IngestMetricInput
high_cpu = record low_cpu { value = at_rank 95; timestamp = none }

abbrev a_batch : IngestMetricBatchInput
a_batch = record { tenant_id = 1; metrics = low_cpu ∷ high_cpu ∷ [] }

ingest_batch_lem_example :
    IngestedBatch adapters a_batch []
      (ingest_batch adapters a_batch []).0
      (ingest_batch adapters a_batch []).1
ingest_batch_lem_example = ingest_batch_lem adapters a_batch []

last_values_lem_example :
    (lookup "cpu" (last_values (low_cpu ∷ high_cpu ∷ [])) ≡ latest "cpu" (low_cpu ∷ high_cpu ∷ []))
    × (entries_of "cpu" (last_values (low_cpu ∷ high_cpu ∷ []))
        ≡ (if is_some (latest "cpu" (low_cpu ∷ high_cpu ∷ [])) then 1 else 0))
last_values_lem_example = last_values_lem "cpu" (low_cpu ∷ high_cpu ∷ [])

abbrev definition_request : CreateMetricDefinitionInput
definition_request = record {
  tenant_id = 1;
  name = "cpu";
  display_name = none;
  description = none;
  unit = some "%";
  kind = MetricType.gauge;
  aggregation = AggregationType.avg;
  alert_threshold = none;
  retention_days = pos 30;
}

create_definition_lem_example :
    Created adapters definition_request []
      (create_definition adapters definition_request []).0
      (create_definition adapters definition_request []).1
create_definition_lem_example = create_definition_lem adapters definition_request []
