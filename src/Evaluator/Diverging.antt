-- ===== src/Evaluator/Diverging.antt =====
-- The evaluator against the evaluation of the alert rule service: they act on different rules.
use orchestrix_api.Common.{String, ◌≡◌, refl, Bool, true, false, Option, str_eq, arith, ◌&&◌}
use orchestrix_api.Domain.Values.{Uuid, Float64, Raw}
use orchestrix_api.Domain.AlertRule.{ThresholdCondition}
use orchestrix_api.Domain.AlertRule.Threshold.{Fires}
use orchestrix_api.Db.{Session}
use orchestrix_api.Db.Rows.{AlertRuleRow}
use orchestrix_api.Db.Rules.{is_for_metric}
use orchestrix_api.Postgres.Rules.{to_domain}

other_type : (s : String) → s ≡ "threshold" → str_eq s "metric_threshold" ≡ false
other_type s q = rw q refl

and-false : (a b c : Bool) → b ≡ false → (a && b && c) ≡ false
and-false true b c q = rw q refl
and-false false b c q = refl

-- A rule that fires on some value in the alert rule service is never among those that the evaluator
-- asks the database for, whatever the metric, the tenant and the time: the first wants the condition
-- type "threshold", the second "metric_threshold".
pub Fires-not-for_metric :
    (metric_name_of : Raw ThresholdCondition → Option String) (s : Session) (tenant_id : Uuid)
    (name : String) (v : Float64) (r : AlertRuleRow)
    → Fires v (to_domain r)
    → is_for_metric metric_name_of s tenant_id name r ≡ false
unfolding to_domain
Fires-not-for_metric metric_name_of s tenant_id name v r f =
    rw (other_type r.condition_type f.of_type) (ground arith)
