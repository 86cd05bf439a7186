-- ===== src/Service/Metric/Background.antt =====
-- internal/core/service/metric.go: the two goroutines, which evaluate the alert rules.
use orchestrix_api.Common.{String, Bool, true, false, List, [], ◌∷◌, insert, if◌then◌else◌}
use orchestrix_api.Domain.Values.{Uuid, Float64}
use orchestrix_api.Port.Inputs.{IngestMetricInput, IngestMetricBatchInput}
use orchestrix_api.Port.Call.{Ports, History}
use orchestrix_api.Service.AlertRule as AlertRuleService
use orchestrix_api.Service.AlertRule.{Outcome, returned, panicked}

-- The map lastValues: the loop writes each metric's value under its name.
unfoldable pub last_values_from :
    List (String × Float64) → List IngestMetricInput → List (String × Float64)
last_values_from m [] = m
last_values_from m (x ∷ xs) = last_values_from (insert x.name x.value m) xs

abbrev pub last_values : List IngestMetricInput → List (String × Float64)
last_values metrics = last_values_from [] metrics

module _ (p : Ports) where
  -- The goroutines. The error of Evaluate is dropped; its panic is not, and ends the process.
  abbrev pub go_on : Outcome → Bool
  go_on (returned r) = true
  go_on panicked = false

  abbrev pub unless_panicked : Outcome × History → Bool × History
  unless_panicked (o, h) = (go_on o, h)

  unfoldable pub evaluate_one : Uuid → String → Float64 → History → Bool × History
  evaluate_one tenant_id name v h =
      if p.has_alert_rule_service
      then unless_panicked (AlertRuleService.evaluate p tenant_id name v h)
      else (true, h)

  unfoldable pub evaluate_each : Uuid → List (String × Float64) → History → Bool × History
  evaluate_each tenant_id [] h = (true, h)
  evaluate_each tenant_id ((name, v) ∷ m) h =
      let (o, h') = AlertRuleService.evaluate p tenant_id name v h in
      let rest = evaluate_each tenant_id m h' in if go_on o then rest else (false, h')

  -- `ordered` is the order in which Go goes through a map, which the language leaves open.
  unfoldable pub evaluate_batch :
      (List (String × Float64) → List (String × Float64))
      → IngestMetricBatchInput
      → History
      → Bool × History
  unfolding evaluate_each
  evaluate_batch ordered input h =
      if p.has_alert_rule_service
      then evaluate_each input.tenant_id (ordered (last_values input.metrics)) h
      else (true, h)
