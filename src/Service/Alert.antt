-- ===== src/Service/Alert.antt =====
-- internal/core/service/alert.go
pub mod Requests
pub mod Auditing
pub mod Stored
use orchestrix_api.Common.{Option, none, some, ℤ, page_offset}
use orchestrix_api.Domain.Values.{Uuid, Time, absent}
use orchestrix_api.Domain.Alert as Domain
use orchestrix_api.Domain.Alert.{Alert, triggered}
use orchestrix_api.Domain.Audit.{
  AuditEvent, AuditAction, alert_created, alert_acknowledged, alert_resolved, ResourceType, Entity,
  of_alert,
}
use orchestrix_api.Port.Inputs.{Page, CreateAlertInput}
use orchestrix_api.Port.Call.{Ports, save_alert, update_alert}
use orchestrix_api.Port.Action.{Action, ask, write, pure, gets, from_domain, ◌>>=◌, ◌>>◌}
use orchestrix_api.Service.Audit.{set_tenant, record_audit}

-- The `switch` of logAudit.
abbrev pub action_of : AuditEvent → AuditAction
action_of alert_acknowledged = AuditAction.acknowledge
action_of alert_resolved = AuditAction.resolve
action_of _ = AuditAction.create

-- The literal of Create.
abbrev pub new_alert : Uuid → Time → CreateAlertInput → Alert
new_alert id now input = record {
  id = id;
  tenant_id = input.tenant_id;
  workflow_id = input.workflow_id;
  execution_id = input.execution_id;
  severity = input.severity;
  title = input.title;
  message = input.message;
  status = triggered;
  acknowledged_at = none;
  acknowledged_by = none;
  resolved_at = none;
  resolved_by = none;
  created_at = now;
  triggered_by_rule_id = input.triggered_by_rule_id;
  triggered_workflow_execution_id = none;
  source = input.source;
  metadata = absent;
}

module _ (p : Ports) where
  unfoldable pub list : Uuid → ℤ → ℤ → Action (Page Alert)
  list tenant_id page limit = do
    set_tenant p tenant_id
    let offset = page_offset page limit
    alerts ← ask "alerts by tenant" λ h. p.alerts.find_by_tenant h tenant_id limit offset
    total ← ask "alerts of tenant" λ h. p.alerts.count_by_tenant h tenant_id
    pure (record { items = alerts; total = total; page = page; limit = limit })

  unfoldable pub get_by_id : Uuid → Action Alert
  get_by_id id = ask "alert by id" λ h. p.alerts.find_by_id h id

  unfoldable pub log_audit :
      Uuid → Option Uuid → AuditEvent → Uuid → Option Entity → Option Entity → Action Unit
  log_audit tenant_id user_id event resource_id old new =
      record_audit p tenant_id user_id event ResourceType.alert resource_id (action_of event) old
        new

  unfoldable pub create : CreateAlertInput → Action Alert
  unfolding log_audit
  create input = do
    set_tenant p input.tenant_id
    id ← gets λ h. p.host.new_uuid h 0
    now ← gets λ h. p.host.now h 0
    let alert = new_alert id now input
    write (save_alert alert) λ h. p.alerts.save h alert
    log_audit input.tenant_id none alert_created alert.id none (some (of_alert alert))
    pure alert

  unfoldable pub acknowledge : Uuid → Uuid → Action Alert
  unfolding log_audit get_by_id
  acknowledge id user_id = do
    found ← get_by_id id
    now ← gets λ h. p.host.now h 0
    alert ← from_domain (Domain.acknowledge now user_id found)
    write (update_alert alert) λ h. p.alerts.update h alert
    log_audit alert.tenant_id (some user_id) alert_acknowledged alert.id none
        (some (of_alert alert))
    pure alert

  unfoldable pub resolve : Uuid → Uuid → Action Alert
  unfolding log_audit get_by_id
  resolve id user_id = do
    found ← get_by_id id
    now ← gets λ h. p.host.now h 0
    alert ← from_domain (Domain.resolve now user_id found)
    write (update_alert alert) λ h. p.alerts.update h alert
    log_audit alert.tenant_id (some user_id) alert_resolved alert.id none (some (of_alert alert))
    pure alert
