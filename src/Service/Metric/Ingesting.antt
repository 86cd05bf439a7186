-- ===== src/Service/Metric/Ingesting.antt =====
-- What the two ingest operations store, return and leave to the alert rules.
use orchestrix_api.Common.{
  ℕ, suc, ◌≤◌, ◌<◌, ◌≡◌, refl, Option, none, some, true, false, List, [], ◌∷◌, map, length, ltb,
  override, arith,
}
use orchestrix_api.Fault.{Error, sentinel, Result, ok, err}
use orchestrix_api.Domain.Errors.{batch_too_large}
use orchestrix_api.Domain.Values.{Uuid, Time}
use orchestrix_api.Domain.Metric.{Metric}
use orchestrix_api.Port.Inputs.{IngestMetricInput, IngestMetricBatchInput, IngestBatchResult}
use orchestrix_api.Port.Call.{
  Ports, History, set_tenant_context, save_metric, save_metric_batch, spawn, evaluate_alerts,
  evaluate_batch_alerts,
}
use orchestrix_api.Port.After.{
  After, After-pure, After-raise, After-if, After-bind, After-gets-bind, After-write-bind,
  After-attempt-write-bind, After-launch-bind,
}
use orchestrix_api.Service.Metric.{
  max_batch_size, named_value, new_metric, new_metrics, ingest, ingest_batch,
}

-- The metric that an input asks to be stored. Without a timestamp of its own it bears the time of
-- the request.
pub record IsMetricOf (tenant : Uuid) (now : Time) (i : IngestMetricInput) (m : Metric)
    : Type 0 where
  pub tenant_id : m.tenant_id ≡ tenant
  pub name : m.name ≡ i.name
  pub value : m.value ≡ i.value
  pub labels : m.labels ≡ i.labels
  pub source : m.source ≡ i.source
  pub timestamp : m.timestamp ≡ override i.timestamp now

-- One metric to an input, in their order.
pub data AreMetricsOf (tenant : Uuid) (now : Time)
    : List IngestMetricInput → List Metric → Type 0 where
  no_more : AreMetricsOf tenant now [] []
  more :
      {i : IngestMetricInput} {is : List IngestMetricInput} {m : Metric} {ms : List Metric}
      → IsMetricOf tenant now i m
      → AreMetricsOf tenant now is ms
      → AreMetricsOf tenant now (i ∷ is) (m ∷ ms)

new_metric-IsMetricOf :
    (id tenant : Uuid) (now created : Time) (i : IngestMetricInput)
    → IsMetricOf tenant now i (new_metric id tenant now created i)
new_metric-IsMetricOf id tenant now created i = record {
  tenant_id = refl;
  name = refl;
  value = refl;
  labels = refl;
  source = refl;
  timestamp = refl;
}

new_metrics-AreMetricsOf :
    (p : Ports) (h : History) (tenant : Uuid) (now : Time) (n : ℕ) (is : List IngestMetricInput)
    → AreMetricsOf tenant now is (new_metrics p h tenant now n is)
unfolding new_metrics
new_metrics-AreMetricsOf p h tenant now n [] = no_more
new_metrics-AreMetricsOf p h tenant now n (i ∷ is) =
    more (new_metric-IsMetricOf (p.host.new_uuid h n) tenant now now i)
      (new_metrics-AreMetricsOf p h tenant now (suc n) is)

-- How Ingest ends, with the calls that it made.
pub data Ingested (p : Ports) (i : IngestMetricInput) (h : History)
    : Result (Unit {0}) → History → Type 0 where
  unset :
      (e : Error)
      → p.set_tenant h i.tenant_id ≡ err e
      → Ingested p i h (err e) (set_tenant_context i.tenant_id ∷ h)
  not_saved :
      (e : Error) (now : Time) (m : Metric)
      → IsMetricOf i.tenant_id now i m
      → p.metrics.save (set_tenant_context i.tenant_id ∷ h) m ≡ err e
      → Ingested p i h (err e) (save_metric m false ∷ set_tenant_context i.tenant_id ∷ h)
  saved :
      (now : Time) (m : Metric)
      → IsMetricOf i.tenant_id now i m
      → p.metrics.save (set_tenant_context i.tenant_id ∷ h) m ≡ ok tt
      → Ingested p i h (ok tt) (
          spawn (evaluate_alerts i.tenant_id i.name i.value)
          ∷ save_metric m true
          ∷ set_tenant_context i.tenant_id
          ∷ h)

ingest-After :
    (p : Ports) (i : IngestMetricInput) (h : History) → After (Ingested p i h) (ingest p i) h
unfolding ingest
ingest-After p i h =
    After-bind _ _ _ (λ e q. unset e q)
      λ _ _. After-gets-bind _ _ _ (
        After-gets-bind _ _ _ (
          After-gets-bind _ _ _ (
            After-write-bind _ _ _ _ (λ e q. not_saved e _ _ (new_metric-IsMetricOf _ _ _ _ i) q)
              λ _ q.
                After-launch-bind _ _ _
                  (After-pure _ _ (saved _ _ (new_metric-IsMetricOf _ _ _ _ i) q)))))

-- Ingest stores one metric, the input's, under the tenant it has set, and evaluates the alert rules
-- on it only once it is stored. An error of the tenant setter or of the repository is returned.
pub ingest_lem :
    (p : Ports) (i : IngestMetricInput) (h : History)
    → Ingested p i h (ingest p i h).0 (ingest p i h).1
ingest_lem p i h = (ingest-After p i h).at

-- How IngestBatch ends, with the calls that it made.
pub data IngestedBatch (p : Ports) (b : IngestMetricBatchInput) (h : History)
    : Result (IngestBatchResult × Option Error) → History → Type 0 where
  refused :
      max_batch_size < length b.metrics → IngestedBatch p b h (err (sentinel batch_too_large)) h
  unset :
      (e : Error)
      → length b.metrics ≤ max_batch_size
      → p.set_tenant h b.tenant_id ≡ err e
      → IngestedBatch p b h (err e) (set_tenant_context b.tenant_id ∷ h)
  not_saved :
      (e : Error) (now : Time) (ms : List Metric)
      → length b.metrics ≤ max_batch_size
      → AreMetricsOf b.tenant_id now b.metrics ms
      → p.metrics.save_batch (set_tenant_context b.tenant_id ∷ h) ms ≡ err e
      → IngestedBatch p b h
          (ok (
            record { ingested = 0; failed = length b.metrics; errors = p.host.error_text e ∷ [] },
            some e,
          ))
          (save_metric_batch ms false ∷ set_tenant_context b.tenant_id ∷ h)
  saved :
      (count : ℕ) (now : Time) (ms : List Metric)
      → length b.metrics ≤ max_batch_size
      → AreMetricsOf b.tenant_id now b.metrics ms
      → p.metrics.save_batch (set_tenant_context b.tenant_id ∷ h) ms ≡ ok count
      → IngestedBatch p b h (ok (record { ingested = count; failed = 0; errors = [] }, none)) (
          spawn (evaluate_batch_alerts b.tenant_id (map named_value b.metrics))
          ∷ save_metric_batch ms true
          ∷ set_tenant_context b.tenant_id
          ∷ h)

ingest_batch-After :
    (p : Ports) (b : IngestMetricBatchInput) (h : History)
    → After (IngestedBatch p b h) (ingest_batch p b) h
unfolding ingest_batch
ingest_batch-After p b h =
    After-if (ltb max_batch_size (length b.metrics)) _ _ _
      (λ q. After-raise _ _ (refused (ground (arith, q))))
      λ q.
        let small : length b.metrics ≤ max_batch_size = ground (arith, q) in
        After-bind _ _ _ (λ e q. unset e small q)
          λ _ _. After-gets-bind _ _ _ (
            After-gets-bind _ _ _ (
              After-attempt-write-bind _ _ _ _
                (λ e q.
                  After-pure _ _ (not_saved e _ _ small (new_metrics-AreMetricsOf p _ _ _ _ _) q))
                λ n q.
                  After-launch-bind _ _ _
                    (After-pure _ _ (saved n _ _ small (new_metrics-AreMetricsOf p _ _ _ _ _) q))))

-- IngestBatch refuses a batch of more than 10000 metrics before it makes any call. Any other it
-- stores whole in one call of the repository, one metric to an input and in order, under the tenant
-- it has set; it evaluates the alert rules only if that call returns, reports its count, and reports
-- every metric as failed if it fails.
pub ingest_batch_lem :
    (p : Ports) (b : IngestMetricBatchInput) (h : History)
    → IngestedBatch p b h (ingest_batch p b h).0 (ingest_batch p b h).1
ingest_batch_lem p b h = (ingest_batch-After p b h).at
