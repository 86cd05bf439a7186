-- ===== src/Http/Metrics.antt =====
-- internal/adapter/driving/http/metric.go: the handlers that ingest metrics, and those that list the
-- names and give the latest value.
use orchestrix_api.Common.{
  String, Bool, true, false, Option, none, some, List, [], ◌∷◌, map, is_empty, str_eq,
  if◌then◌else◌,
}
use orchestrix_api.Fault.{Error, Result, ok, err}
use orchestrix_api.Domain.Errors.{DomainError}
use orchestrix_api.Domain.Values.{Time, Float64}
use orchestrix_api.Domain.Metric.{Metric}
use orchestrix_api.Auth.{User}
use orchestrix_api.Port.Inputs.{IngestMetricInput, IngestMetricBatchInput, IngestBatchResult}
use orchestrix_api.Port.Call.{Ports}
use orchestrix_api.Service.Metric as MetricService
use orchestrix_api.Http.Handling.{
  Params, Handler, Reply, refused, replied, with_user, with_body, Case, refuse, serve, case,
}

pub record IngestMetricRequest : Type 0 where
  pub name : String
  pub value : Float64
  pub labels : List (String × String)
  pub source : Option String
  pub timestamp : Option Time

abbrev pub is_batch_too_large : DomainError → Bool
is_batch_too_large DomainError.batch_too_large = true
is_batch_too_large _ = false

abbrev pub is_metric_not_found : DomainError → Bool
is_metric_not_found DomainError.metric_not_found = true
is_metric_not_found _ = false

unfoldable pub ingest_input : User → IngestMetricRequest → IngestMetricInput
ingest_input u r = record {
  tenant_id = u.tenant_id;
  name = r.name;
  value = r.value;
  labels = r.labels;
  source = r.source;
  timestamp = r.timestamp;
}

-- The test in the loop of IngestBatch, which comes before any call.
unfoldable pub has_nameless : List IngestMetricRequest → Bool
has_nameless [] = false
has_nameless (m ∷ ms) = if str_eq m.name "" then true else has_nameless ms

abbrev pub batch_cases : List Case
batch_cases = case is_batch_too_large 400 "batch size exceeds maximum limit (10000)" ∷ []

-- IngestBatch of the service returns a result beside an error; the handler looks at the error first.
unfoldable pub batch_reply : Result (IngestBatchResult × Option Error) → Reply IngestBatchResult
unfolding refuse
batch_reply (err e) = refuse batch_cases "failed to ingest metrics" e
batch_reply (ok (r, some e)) = refuse batch_cases "failed to ingest metrics" e
batch_reply (ok (r, none)) = replied 201 r

module _ (p : Ports) where
  unfoldable pub ingest_valid : User → IngestMetricRequest → Handler String
  unfolding serve ingest_input
  ingest_valid u r h =
      if str_eq r.name ""
      then (refused 400 "name is required", h)
      else serve [] "failed to ingest metric" (λ done. replied 201 "ingested")
          (MetricService.ingest p (ingest_input u r)) h

  unfoldable pub ingest : Option IngestMetricRequest → Params → Handler String
  unfolding with_user with_body ingest_valid
  ingest body q = with_user q.user λ u. with_body body λ r. ingest_valid u r

  unfoldable pub ingest_batch_valid : User → List IngestMetricRequest → Handler IngestBatchResult
  unfolding has_nameless ingest_input batch_reply
  ingest_batch_valid u rs h =
      if is_empty rs
      then (refused 400 "metrics array is required", h)
      else if has_nameless rs
      then (refused 400 "name is required for all metrics", h)
      else (let input : IngestMetricBatchInput = record {
        tenant_id = u.tenant_id;
        metrics = map (ingest_input u) rs;
      } in
          let r = MetricService.ingest_batch p input h in (batch_reply r.0, r.1))

  unfoldable pub ingest_batch :
      Option (List IngestMetricRequest) → Params → Handler IngestBatchResult
  unfolding with_user with_body ingest_batch_valid
  ingest_batch body q = with_user q.user λ u. with_body body λ rs. ingest_batch_valid u rs

  unfoldable pub list_names : String → Params → Handler (List String)
  unfolding with_user serve
  list_names prefix q = with_user q.user λ u.
      serve [] "failed to list metric names" (λ names. replied 200 names)
        (MetricService.list_names p u.tenant_id prefix)

  -- The labels of the query, none if they do not decode; the name of the URL stands in the place of
  -- the id.
  unfoldable pub latest_of : User → String → Option (List (String × String)) → Handler Metric
  unfolding serve
  latest_of u name none h = (refused 400 "invalid labels format", h)
  latest_of u name (some labels) h =
      serve (case is_metric_not_found 404 "metric not found" ∷ []) "failed to get latest metric"
        (λ m. replied 200 m) (MetricService.get_latest p u.tenant_id name labels) h

  unfoldable pub get_latest : Option (List (String × String)) → Params → Handler Metric
  unfolding with_user latest_of
  get_latest labels q = with_user q.user λ u. latest_of u q.id labels
