-- ===== src/Service/Alert/Auditing.antt =====
-- The audit records of the alert service.
use orchestrix_api.Common.{◌≡◌, refl, true, Option, none, some, List, [], ◌∷◌, ◌++◌, map}
use orchestrix_api.Fault.{Result, ok, err}
use orchestrix_api.Domain.Values.{Uuid}
use orchestrix_api.Domain.Alert.{Alert}
use orchestrix_api.Domain.Audit.{
  AuditLog, AuditEvent, AuditAction, alert_created, alert_acknowledged, alert_resolved,
  new_audit_log, with_old_value, with_new_value,
}
use orchestrix_api.Port.Call.{Ports, History}
use orchestrix_api.Port.Inputs.{CreateAlertInput}
use orchestrix_api.Port.After.{
  After, After-pure, After-bind, After-gets-bind, After-ask-bind, After-write-bind,
  After-from_domain-bind,
}
use orchestrix_api.Service.Audit.{After-record_audit-bind}
use orchestrix_api.Port.Trace.{audit_trail}
use orchestrix_api.Service.Alert.{create, acknowledge, resolve}
use orchestrix_api.Service.Alert.Requests.{Request, creating, acknowledging, resolving, perform}

-- Who did what to which alert.
pub record Entry : Type 0 where
  pub event : AuditEvent
  pub action : AuditAction
  pub user : Option Uuid
  pub resource : Option Uuid
  pub tenant : Uuid

abbrev pub entry : AuditLog → Entry
entry log = record {
  event = log.event_type;
  action = log.action;
  user = log.user_id;
  resource = log.resource_id;
  tenant = log.tenant_id;
}

-- What a request that returned an alert should leave in the audit log.
abbrev pub expected : Request → Alert → Entry
expected (creating input) a = record {
  event = alert_created;
  action = AuditAction.create;
  user = none;
  resource = some a.id;
  tenant = a.tenant_id;
}
expected (acknowledging id user) a = record {
  event = alert_acknowledged;
  action = AuditAction.acknowledge;
  user = some user;
  resource = some a.id;
  tenant = a.tenant_id;
}
expected (resolving id user) a = record {
  event = alert_resolved;
  action = AuditAction.resolve;
  user = some user;
  resource = some a.id;
  tenant = a.tenant_id;
}

abbrev pub entries : Request → Result Alert → List Entry
entries r (ok a) = expected r a ∷ []
entries r (err e) = []

-- What the result and the history of a request should have to do with the history before it.
abbrev Audited : Request → History → Result Alert → History → Type 0
Audited r h res h' = map entry (audit_trail h') ≡ entries r res ++ map entry (audit_trail h)

create-Audited :
    (p : Ports) (input : CreateAlertInput) (h : History)
    → p.has_audit_service ≡ true
    → After (Audited (creating input) h) (create p input) h
unfolding create new_audit_log with_old_value with_new_value
create-Audited p input h on =
    After-bind _ _ _ (λ e q. refl)
      λ _ _. After-gets-bind _ _ _ (
        After-gets-bind _ _ _ (
          After-write-bind _ _ _ _ (λ e q. refl)
            λ _ _. After-record_audit-bind p _ _ _ _ _ _ _ _ _ _ on (λ done. After-pure _ _ refl)))

acknowledge-Audited :
    (p : Ports) (id user : Uuid) (h : History)
    → p.has_audit_service ≡ true
    → After (Audited (acknowledging id user) h) (acknowledge p id user) h
unfolding acknowledge new_audit_log with_old_value with_new_value
acknowledge-Audited p id user h on =
    After-ask-bind _ _ _ _ (λ e q. refl)
      λ found _. After-gets-bind _ _ _ (
        After-from_domain-bind _ _ _ (λ e q. refl)
          λ _.
            After-write-bind _ _ _ _ (λ e q. refl)
              λ _ _. After-record_audit-bind p _ _ _ _ _ _ _ _ _ _ on (λ done. After-pure _ _ refl))

resolve-Audited :
    (p : Ports) (id user : Uuid) (h : History)
    → p.has_audit_service ≡ true
    → After (Audited (resolving id user) h) (resolve p id user) h
unfolding resolve new_audit_log with_old_value with_new_value
resolve-Audited p id user h on =
    After-ask-bind _ _ _ _ (λ e q. refl)
      λ found _. After-gets-bind _ _ _ (
        After-from_domain-bind _ _ _ (λ e q. refl)
          λ _.
            After-write-bind _ _ _ _ (λ e q. refl)
              λ _ _. After-record_audit-bind p _ _ _ _ _ _ _ _ _ _ on (λ done. After-pure _ _ refl))

-- With an audit service, a request that returns an alert asks for exactly one audit record, which
-- names its event, action, user, alert and tenant; a request that fails asks for none.
pub audit_trail-perform :
    (p : Ports) (r : Request) (h : History)
    → p.has_audit_service ≡ true
    → map entry (audit_trail (perform p r h).1)
      ≡ entries r (perform p r h).0 ++ map entry (audit_trail h)
audit_trail-perform p (creating input) h on = (create-Audited p input h on).at
audit_trail-perform p (acknowledging id user) h on = (acknowledge-Audited p id user h on).at
audit_trail-perform p (resolving id user) h on = (resolve-Audited p id user h on).at
