-- ===== src/Http/Checking.antt =====
-- Which requests on metrics get past the checks of the handlers, to a call of the service.
use orchestrix_api.Common.{
  String, ◌≡◌, ◌≢◌, refl, Bool, true, false, not, ◌&&◌, List, [], ◌∷◌, All, map, Bool-cases, inl,
  inr, str_eq, eq_iff, arith,
}
use orchestrix_api.Domain.Metric.{is_valid_metric_type, is_valid_aggregation_type}
use orchestrix_api.Postgres.Texts.{of_text}
use orchestrix_api.Validation.{is_one_of}
use orchestrix_api.Validation.Accepting.{IsIn, here, there, is_one_of-IsIn, IsIn-is_one_of}
use orchestrix_api.Auth.{User}
use orchestrix_api.Port.Call.{Ports, History}
use orchestrix_api.Port.Action.{Action}
use orchestrix_api.Service.Metric as MetricService
use orchestrix_api.Http.Handling.{Handler, refused}
use orchestrix_api.Http.Metrics as Metrics
use orchestrix_api.Http.Metrics.{IngestMetricRequest, ingest_input, has_nameless}
use orchestrix_api.Http.Definitions as Definitions
use orchestrix_api.Http.Definitions.{
  CreateMetricDefinitionRequest, create_input, metric_type_of, aggregation_of,
}

-- A handler checks a request for a property before it calls the service.
pub data Checks {A B : Type 0} (P : Type 0) (f : Handler A) (action : Action B) (h : History)
    : Type 0 where
  rejected : (message : String) → ¬ P → f h ≡ (refused 400 message, h) → Checks P f action h
  passed : P → (f h).1 ≡ (action h).1 → Checks P f action h

-- A batch has metrics, and each has a name.
abbrev pub IsBatch : List IngestMetricRequest → Type 0
IsBatch rs = (rs ≢ []) × All (λ r. r.name ≢ "") rs

-- The types and the aggregations that there are, as texts of a request.
abbrev pub known_types : List String
known_types = "gauge" ∷ "counter" ∷ "histogram" ∷ "summary" ∷ []

abbrev pub known_aggregations : List String
known_aggregations = "avg" ∷ "sum" ∷ "min" ∷ "max" ∷ "last" ∷ "count" ∷ "p50" ∷ "p95" ∷ "p99" ∷ []

-- A definition has a name, and a type and an aggregation that are empty or among the known texts.
abbrev pub IsDefinition : CreateMetricDefinitionRequest → Type 0
IsDefinition r =
    (r.name ≢ "") × IsIn r.kind ("" ∷ known_types) × IsIn r.aggregation ("" ∷ known_aggregations)

has_nameless-All :
    (rs : List IngestMetricRequest) → has_nameless rs ≡ false → All (λ r. r.name ≢ "") rs
unfolding has_nameless
has_nameless-All [] q = tt
has_nameless-All (r ∷ rs) q = elim (Bool-cases (str_eq r.name "")) [
  | inl e ↦ cc (rw e at q)
  | inr n ↦ ((λ e. cc ((eq_iff r.name "").1 e, n)), has_nameless-All rs (rw n at q))
]

has_nameless-not :
    (rs : List IngestMetricRequest) → has_nameless rs ≡ true → ¬ All (λ r. r.name ≢ "") rs
unfolding has_nameless
has_nameless-not [] q all = cc
has_nameless-not (r ∷ rs) q (named, all) = elim (Bool-cases (str_eq r.name "")) [
  | inl e ↦ named ((eq_iff r.name "").0 e)
  | inr n ↦ has_nameless-not rs (rw n at q) all
]

-- The code accepts just the known texts.
type-is_one_of : (s : String) → is_valid_metric_type (metric_type_of s) ≡ is_one_of s known_types
unfolding is_valid_metric_type metric_type_of of_text is_one_of
type-is_one_of s = ground arith

aggregation-is_one_of :
    (s : String) → is_valid_aggregation_type (aggregation_of s) ≡ is_one_of s known_aggregations
unfolding is_valid_aggregation_type aggregation_of of_text is_one_of
aggregation-is_one_of s = ground arith

-- A text that is not empty is looked at.
module _ (s : String) (known : List String) (v : Bool) (same : v ≡ is_one_of s known) where
  accepted : (not (str_eq s "") && not v) ≡ false → IsIn s ("" ∷ known)
  accepted q = elim (Bool-cases (str_eq s "")) [
    | inl e ↦ here ((eq_iff s "").0 e)
    | inr n ↦ there (is_one_of-IsIn s known (ground arith))
  ]

  refused_text : (not (str_eq s "") && not v) ≡ true → ¬ IsIn s ("" ∷ known)
  refused_text q (here e) = ground (arith, (eq_iff s "").1 e)
  refused_text q (there m) = ground (arith, IsIn-is_one_of m)

module _ (p : Ports) (u : User) (h : History) where
  ingest_batch_valid-Checks :
      (rs : List IngestMetricRequest)
      → Checks
          (IsBatch rs)
          (Metrics.ingest_batch_valid p u rs)
          (MetricService.ingest_batch p
            (record { tenant_id = u.tenant_id; metrics = map (ingest_input u) rs }))
          h
  unfolding Metrics.ingest_batch_valid
  ingest_batch_valid-Checks [] =
      rejected "metrics array is required" (λ (q : IsBatch []). q.0 refl) refl
  ingest_batch_valid-Checks (r ∷ rs) = elim (Bool-cases (has_nameless (r ∷ rs))) [
    | inl q ↦
        rejected "name is required for all metrics"
          (λ (b : IsBatch (r ∷ rs)). has_nameless-not (r ∷ rs) q b.1) (rw q refl)
    | inr q ↦ passed (λ e. cc e, has_nameless-All (r ∷ rs) q) (rw q refl)
  ]

  -- The three tests of the handler, with the texts and what they stand for.
  create_valid-Checks :
      (r : CreateMetricDefinitionRequest)
      → Checks
          (IsDefinition r)
          (Definitions.create_valid p u r)
          (MetricService.create_definition p (create_input u r))
          h
  unfolding Definitions.create_valid create_input
  create_valid-Checks r = elim (Bool-cases (str_eq r.name "")) [
    | inl e ↦
        rejected "name is required" (λ (d : IsDefinition r). d.0 ((eq_iff r.name "").0 e))
          (rw e refl)
    | inr n ↦
        elim (Bool-cases
          (not (str_eq r.kind "") && not (is_valid_metric_type (metric_type_of r.kind)))) [
            | inl k ↦
                rejected "invalid metric type"
                  (λ (d : IsDefinition r).
                    refused_text r.kind known_types _ (type-is_one_of r.kind) k d.1)
                  (rw (n, k) refl)
            | inr k ↦
                elim (Bool-cases (
                  not (str_eq r.aggregation "")
                  && not (is_valid_aggregation_type (aggregation_of r.aggregation)))) [
                    | inl a ↦
                        rejected "invalid aggregation type"
                          (λ (d : IsDefinition r).
                            refused_text r.aggregation known_aggregations _
                              (aggregation-is_one_of r.aggregation) a d.2)
                          (rw (n, k, a) refl)
                    | inr a ↦
                        passed
                          (
                            λ q. cc ((eq_iff r.name "").1 q, n),
                            accepted r.kind known_types _ (type-is_one_of r.kind) k,
                            accepted r.aggregation known_aggregations _
                                (aggregation-is_one_of r.aggregation) a,
                          )
                          (rw (n, k, a) refl)
                  ]
          ]
  ]

-- A batch of metrics, and a definition of a metric, is refused with a 400 before any call exactly if it
-- has no metrics or one without a name, or if it has no name, a type that is given and is none of
-- gauge, counter, histogram and summary, or an aggregation that is given and is none of avg, sum, min,
-- max, last, count, p50, p95 and p99; any other gets to the service, under the tenant of the user.
pub metrics-Checks :
    (p : Ports) (u : User) (h : History) (rs : List IngestMetricRequest)
    (r : CreateMetricDefinitionRequest)
    → Checks
        (IsBatch rs)
        (Metrics.ingest_batch_valid p u rs)
        (MetricService.ingest_batch p
          (record { tenant_id = u.tenant_id; metrics = map (ingest_input u) rs }))
        h
      × Checks
          (IsDefinition r)
          (Definitions.create_valid p u r)
          (MetricService.create_definition p (create_input u r))
          h
metrics-Checks p u h rs r = (ingest_batch_valid-Checks p u h rs, create_valid-Checks p u h r)
