-- ===== src/Db/Alerts.antt =====
-- internal/db/alerts.sql.go: the queries that the alert adapter and the evaluator run. `arrange` is
-- what `ORDER BY created_at DESC` makes of the rows.
use orchestrix_api.Common.{
  ℕ, String, Bool, Option, none, some, List, ◌∷◌, ℤ, length, ◌==◌ as nat_eq,
}
use orchestrix_api.Fault.{Result, ok, err}
use orchestrix_api.Domain.Values.{Uuid, Raw}
use orchestrix_api.Db.{
  Session, Fetched, row, broken, first, select, modify, page, fetch, answer, change,
}
use orchestrix_api.Db.Rows.{AlertRow}

pub record CreateAlertParams : Type 0 where
  pub tenant_id : Uuid
  pub title : String
  pub message : Option String
  pub severity : String
  pub source : Option String
  pub metadata : Raw String
  pub triggered_by_rule_id : Option Uuid

-- The columns that the INSERT leaves out take their defaults.
abbrev pub new_alert : Session → CreateAlertParams → AlertRow
new_alert s p = record {
  id = s.fresh;
  tenant_id = p.tenant_id;
  workflow_id = none;
  execution_id = none;
  severity = p.severity;
  title = p.title;
  message = p.message;
  status = "open";
  acknowledged_at = none;
  acknowledged_by = none;
  resolved_at = none;
  resolved_by = none;
  created_at = s.now;
  triggered_by_rule_id = p.triggered_by_rule_id;
  triggered_workflow_execution_id = none;
  source = p.source;
  metadata = p.metadata;
}

unfoldable pub create_alert :
    Session → CreateAlertParams → List AlertRow → Fetched AlertRow × List AlertRow
create_alert s p rs = change s.fault (row (new_alert s p), new_alert s p ∷ rs) (λ e. broken e) rs

abbrev pub has_id : Uuid → AlertRow → Bool
has_id id r = nat_eq r.id id

unfoldable pub get_alert : Session → Uuid → List AlertRow → Fetched AlertRow
unfolding select
get_alert s id rs = fetch s.fault (first (select (has_id id) rs))

unfoldable pub list_alerts :
    (List AlertRow → List AlertRow)
    → Session
    → Uuid
    → ℤ
    → ℤ
    → List AlertRow
    → Result (List AlertRow)
unfolding select page
list_alerts arrange s tenant_id limit offset rs =
    answer s.fault (page s limit offset (arrange (select (λ r. nat_eq r.tenant_id tenant_id) rs)))

unfoldable pub count_alerts : Session → Uuid → List AlertRow → Result ℕ
unfolding select
count_alerts s tenant_id rs =
    answer s.fault (ok (length (select (λ r. nat_eq r.tenant_id tenant_id) rs)))

abbrev pub acknowledged_row : Session → Option Uuid → AlertRow → AlertRow
acknowledged_row s user r = record r {
  status = "acknowledged";
  acknowledged_at = some s.now;
  acknowledged_by = user;
}

unfoldable pub acknowledge_alert :
    Session → Uuid → Option Uuid → List AlertRow → Fetched AlertRow × List AlertRow
unfolding select modify
acknowledge_alert s id user rs =
    let rs' = modify (has_id id) (acknowledged_row s user) rs in
    change s.fault (first (select (has_id id) rs'), rs') (λ e. broken e) rs

abbrev pub resolved_row : Session → Option Uuid → AlertRow → AlertRow
resolved_row s user r = record r {
  status = "resolved";
  resolved_at = some s.now;
  resolved_by = user;
}

unfoldable pub resolve_alert :
    Session → Uuid → Option Uuid → List AlertRow → Fetched AlertRow × List AlertRow
unfolding select modify
resolve_alert s id user rs =
    let rs' = modify (has_id id) (resolved_row s user) rs in
    change s.fault (first (select (has_id id) rs'), rs') (λ e. broken e) rs

unfoldable pub update_alert_triggered_execution :
    Session → Uuid → Option Uuid → List AlertRow → Result (Unit {0}) × List AlertRow
unfolding modify
update_alert_triggered_execution s id execution rs =
    change s.fault
      (ok tt, modify (has_id id) (λ r. record r { triggered_workflow_execution_id = execution }) rs)
      (λ e. err e) rs
