-- ===== src/Service/AlertRule/Auditing.antt =====
-- The audit records of the alert rule service.
use orchestrix_api.Common.{◌≡◌, refl, true, Option, none, some, ◌∷◌, map}
use orchestrix_api.Fault.{Result, ok, err}
use orchestrix_api.Domain.Values.{Uuid}
use orchestrix_api.Domain.AlertRule.{AlertRule}
use orchestrix_api.Domain.Audit.{
  AuditLog, AuditEvent, AuditAction, alert_rule_created, alert_rule_updated, alert_rule_deleted,
  Entity, of_alert_rule, marshal, new_audit_log, with_old_value, with_new_value,
}
use orchestrix_api.Port.Call.{Ports, History}
use orchestrix_api.Port.Inputs.{CreateAlertRuleInput, UpdateAlertRuleInput}
use orchestrix_api.Port.After.{
  After, After-pure, After-bind, After-gets-bind, After-ask-bind, After-write-bind,
}
use orchestrix_api.Port.Trace.{audit_trail}
use orchestrix_api.Service.Audit.{After-record_audit-bind}
use orchestrix_api.Service.AlertRule.{create, update, delete}

-- An event and what is kept of the rule before and after it.
pub record Change : Type 0 where
  pub event : AuditEvent
  pub action : AuditAction
  pub before : Option Entity
  pub after : Option Entity

abbrev pub change_of : AuditLog → Change
change_of log = record {
  event = log.event_type;
  action = log.action;
  before = log.old_value;
  after = log.new_value;
}

-- What is recorded of a rule that `json.Marshal` takes.
abbrev pub kept : Option AlertRule → Option Entity
kept none = none
kept (some r) = marshal (of_alert_rule r)

abbrev pub change : AuditEvent → AuditAction → Option AlertRule → Option AlertRule → Change
change event action before after = record {
  event = event;
  action = action;
  before = kept before;
  after = kept after;
}

-- A change that succeeded adds the record that it should; one that failed adds none.
abbrev pub Recorded :
    {A : Type 0}
    → History
    → (A → Option AlertRule → Change)
    → Result A
    → Option AlertRule
    → History
    → Type 0
Recorded h f (ok a) old h' =
    map change_of (audit_trail h') ≡ f a old ∷ map change_of (audit_trail h)
Recorded h f (err e) old h' = map change_of (audit_trail h') ≡ map change_of (audit_trail h)

-- What the repository finds, where it does.
abbrev pub found_rule : Result AlertRule → Option AlertRule
found_rule (ok r) = some r
found_rule (err e) = none

abbrev pub created : AlertRule → Option AlertRule → Change
created r old = change alert_rule_created AuditAction.create none (some r)

abbrev pub updated : AlertRule → Option AlertRule → Change
updated r old = change alert_rule_updated AuditAction.update old (some r)

abbrev pub deleted : Unit {0} → Option AlertRule → Change
deleted u old = change alert_rule_deleted AuditAction.delete old none

module _ (p : Ports) (on : p.has_audit_service ≡ true) where
  create-After :
      (input : CreateAlertRuleInput) (h : History)
      → After (λ r h'. Recorded h created r none h') (create p input) h
  unfolding create new_audit_log with_old_value with_new_value
  create-After input h =
      After-bind _ _ _ (λ e q. refl)
        λ _ _. After-gets-bind _ _ _ (
          After-gets-bind _ _ _ (
            After-gets-bind _ _ _ (
              After-write-bind _ _ _ _ (λ e q. refl)
                λ _ _.
                  After-record_audit-bind p _ _ _ _ _ _ _ _ _ _ on (λ done. After-pure _ _ refl))))

  update-After :
      (id : Uuid) (input : UpdateAlertRuleInput) (h : History)
      → After
          (λ r h'. Recorded h updated r (found_rule (p.rules.find_by_id h id)) h')
          (update p id input)
          h
  unfolding update new_audit_log with_old_value with_new_value
  update-After id input h =
      After-ask-bind _ _ _ _ (λ e q. refl)
        λ old q. After-gets-bind _ _ _ (
          After-write-bind _ _ _ _ (λ e q. refl)
            λ _ _.
              After-record_audit-bind p _ _ _ _ _ _ _ _ _ _ on (λ done. After-pure _ _ (rw q refl)))

  delete-After :
      (id : Uuid) (h : History)
      → After
          (λ r h'. Recorded h deleted r (found_rule (p.rules.find_by_id h id)) h')
          (delete p id)
          h
  unfolding delete new_audit_log with_old_value with_new_value
  delete-After id h =
      After-ask-bind _ _ _ _ (λ e q. refl)
        λ old q.
          After-write-bind _ _ _ _ (λ e q. refl)
            λ _ _.
              After-record_audit-bind p _ _ _ _ _ _ _ _ _ _ on (λ done. After-pure _ _ (rw q refl))

-- With an audit service, a creation, an update or a deletion of a rule that succeeds asks for exactly
-- one audit record, with its event and action, the rule that was found before it and the rule after
-- it, where they marshal; one that fails asks for none.
pub rule_audit_trail :
    (p : Ports) (created_as : CreateAlertRuleInput) (updated_as : UpdateAlertRuleInput) (id : Uuid)
    (h : History)
    → p.has_audit_service ≡ true
    → Recorded h created (create p created_as h).0 none (create p created_as h).1
      × Recorded h updated
          (update p id updated_as h).0
          (found_rule (p.rules.find_by_id h id))
          (update p id updated_as h).1
      × Recorded h deleted
          (delete p id h).0
          (found_rule (p.rules.find_by_id h id))
          (delete p id h).1
rule_audit_trail p created_as updated_as id h on = (
  (create-After p on created_as h).at,
  (update-After p on id updated_as h).at,
  (delete-After p on id h).at,
)
