-- ===== src/Postgres/Alerts.antt =====
-- internal/adapter/driven/postgres/alert.go: AlertRepository.
use orchestrix_api.Common.{ℕ, Option, none, some, List, ℤ}
use orchestrix_api.Fault.{Result, ok}
use orchestrix_api.Domain.Errors.{alert_not_found}
use orchestrix_api.Domain.Values.{Uuid}
use orchestrix_api.Domain.Alert.{Alert, AlertStatus, acknowledged, resolved}
use orchestrix_api.Db.{Session}
use orchestrix_api.Db.Rows.{AlertRow}
use orchestrix_api.Db.Alerts.{
  CreateAlertParams, create_alert, get_alert, list_alerts, count_alerts, acknowledge_alert,
  resolve_alert,
}
use orchestrix_api.Postgres.{uuid_to_pgtype, found, error_of, each}
use orchestrix_api.Postgres.Texts.{severity_text, severity_of, alert_status_of}

unfoldable pub to_domain : AlertRow → Alert
unfolding severity_of alert_status_of
to_domain r = record {
  id = r.id;
  tenant_id = r.tenant_id;
  workflow_id = r.workflow_id;
  execution_id = r.execution_id;
  severity = severity_of r.severity;
  title = r.title;
  message = r.message;
  status = alert_status_of r.status;
  acknowledged_at = r.acknowledged_at;
  acknowledged_by = r.acknowledged_by;
  resolved_at = r.resolved_at;
  resolved_by = r.resolved_by;
  created_at = r.created_at;
  triggered_by_rule_id = r.triggered_by_rule_id;
  triggered_workflow_execution_id = r.triggered_workflow_execution_id;
  source = r.source;
  metadata = r.metadata;
}

unfoldable pub find_by_id : Session → Uuid → List AlertRow → Result Alert
unfolding get_alert
find_by_id s id rs = found alert_not_found to_domain (get_alert s id rs)

unfoldable pub find_by_tenant :
    (List AlertRow → List AlertRow) → Session → Uuid → ℤ → ℤ → List AlertRow → Result (List Alert)
unfolding list_alerts
find_by_tenant arrange s tenant_id limit offset rs =
    each to_domain (list_alerts arrange s tenant_id limit offset rs)

unfoldable pub count_by_tenant : Session → Uuid → List AlertRow → Result ℕ
unfolding count_alerts
count_by_tenant s tenant_id rs = count_alerts s tenant_id rs

unfoldable pub create_params : Alert → CreateAlertParams
unfolding severity_text uuid_to_pgtype
create_params a = record {
  tenant_id = a.tenant_id;
  title = a.title;
  message = a.message;
  severity = severity_text a.severity;
  source = a.source;
  metadata = a.metadata;
  triggered_by_rule_id = uuid_to_pgtype a.triggered_by_rule_id;
}

unfoldable pub save : Session → Alert → List AlertRow → Result (Unit {0}) × List AlertRow
unfolding create_alert create_params
save s a rs = let (r, rs') = create_alert s (create_params a) rs in (error_of r, rs')

unfoldable pub acknowledging :
    Session → Uuid → Option Uuid → List AlertRow → Result (Unit {0}) × List AlertRow
unfolding acknowledge_alert uuid_to_pgtype
acknowledging s id none rs = (ok tt, rs)
acknowledging s id (some user) rs =
    let (r, rs') = acknowledge_alert s id (uuid_to_pgtype (some user)) rs in (error_of r, rs')

unfoldable pub resolving :
    Session → Uuid → Option Uuid → List AlertRow → Result (Unit {0}) × List AlertRow
unfolding resolve_alert uuid_to_pgtype
resolving s id none rs = (ok tt, rs)
resolving s id (some user) rs =
    let (r, rs') = resolve_alert s id (uuid_to_pgtype (some user)) rs in (error_of r, rs')

unfoldable pub update_to :
    AlertStatus → Session → Alert → List AlertRow → Result (Unit {0}) × List AlertRow
unfolding acknowledging resolving
update_to acknowledged s a rs = acknowledging s a.id a.acknowledged_by rs
update_to resolved s a rs = resolving s a.id a.resolved_by rs
update_to _ s a rs = (ok tt, rs)

-- Only an acknowledged or a resolved alert with its user is written; any other update does nothing.
unfoldable pub update : Session → Alert → List AlertRow → Result (Unit {0}) × List AlertRow
unfolding update_to
update s a rs = update_to a.status s a rs
