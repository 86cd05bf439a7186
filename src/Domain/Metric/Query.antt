-- ===== src/Domain/Metric/Query.antt =====
-- Validation of a metric query.
use orchestrix_api.Common.{◌≡◌, ◌≢◌, ◌↔◌, ◌⊎◌, ◌≤◌, none, arith, eq_iff}
use orchestrix_api.Domain.Values.{nil_uuid}
use orchestrix_api.Domain.Metric.{MetricQuery, validate}

-- A query that names a tenant and a metric and whose time range is open or in order.
pub record IsWellFormed (q : MetricQuery) : Type 0 where
  pub tenant : q.tenant_id ≢ nil_uuid
  pub named : q.name ≢ ""
  pub ordered : (q.start_time ≡ 0) ⊎ (q.end_time ≡ 0) ⊎ (q.start_time ≤ q.end_time)

-- Validate accepts exactly the well-formed queries.
pub validate_iff : (q : MetricQuery) → (validate q ≡ none) ↔ IsWellFormed q
unfolding validate
validate_iff q = (
  λ h. record {
    tenant = ground arith;
    named = ground (arith, eq_iff q.name "");
    ordered = ground arith;
  },
  λ w. ground (arith, eq_iff q.name ""),
)
