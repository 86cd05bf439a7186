-- ===== src/Service/AlertRule/Raising.antt =====
-- What Evaluate's calls of the alert service and of the workflow service do to the alerts.
use orchestrix_api.Common.{String, ◌≡◌, refl, ap, ◌∙◌, ◌⊎◌, inl, inr, some, List, ◌∷◌, ◌++◌}
use orchestrix_api.Fault.{Error, Result, err}
use orchestrix_api.Domain.Values.{Uuid, Time}
use orchestrix_api.Domain.Alert.{Alert, triggered}
use orchestrix_api.Domain.AlertRule.{AlertRule}
use orchestrix_api.Domain.Workflow.{Workflow}
use orchestrix_api.Domain.Execution.{Execution}
use orchestrix_api.Port.Call.{Ports, Call, History}
use orchestrix_api.Port.Trace.{writes, alerts_in, alert_saves}
use orchestrix_api.Port.After.{After, After-pure, After-bind, After-gets-bind, After-write-bind}
use orchestrix_api.Service.Audit.{After-any_audit-bind}
use orchestrix_api.Service.Alert as AlertService
use orchestrix_api.Service.Workflow as WorkflowService
use orchestrix_api.Service.Workflow.Executing.{
  Executing, refused, not_saved, not_started, not_recorded, started, execute_lem,
}
use orchestrix_api.Service.AlertRule.{alert_input}

-- The alert that a rule asks for.
pub record IsAlertOf (tenant : Uuid) (r : AlertRule) (a : Alert) : Type 0 where
  pub rule : a.triggered_by_rule_id ≡ some r.id
  pub tenant_id : a.tenant_id ≡ tenant
  pub severity : a.severity ≡ r.severity
  pub title : a.title ≡ r.alert_title_template
  pub message : a.message ≡ r.alert_message_template
  pub status : a.status ≡ triggered

alerts_in-Executing :
    {p : Ports} {w : Workflow} {input : String} {e : Execution} {h : History} {r : Result Execution}
    {new : List Call} (cs : List Call)
    → Executing p w input e h r new
    → alerts_in (new ++ cs) ≡ alerts_in cs
alerts_in-Executing cs (refused c) = refl
alerts_in-Executing cs (not_saved x c q) = refl
alerts_in-Executing cs (not_started x done c q) = refl
alerts_in-Executing cs (not_recorded x r c q u) = refl
alerts_in-Executing cs (started r c q u) = refl

pub alert_saves-execute :
    (p : Ports) (id : Uuid) (user input : String) (h : History)
    → alert_saves (WorkflowService.execute p id user input h).1 ≡ alert_saves h
alert_saves-execute p id user input h = elim (execute_lem p id user input h) [
  | inl (x, found, how, same) ↦ ap alerts_in same
  | inr (w, e, new, found, pends, ends, same) ↦
      ap alerts_in same ∙ alerts_in-Executing (writes h) ends
]

-- What a call of the alert service's Create has asked to be saved.
abbrev pub Created : Ports → Uuid → AlertRule → History → Result Alert → History → Type 0
Created p tenant r h res h' =
    ((e : Error) × (g : History) × (x : Error) × (res ≡ err e)
      × (p.set_tenant g tenant ≡ err x)
      × (alert_saves h' ≡ alert_saves h))
    ⊎ ((a : Alert) × IsAlertOf tenant r a × (alert_saves h' ≡ a ∷ alert_saves h))

pub create-After :
    (p : Ports) (tenant : Uuid) (r : AlertRule) (h : History)
    → After (Created p tenant r h) (AlertService.create p (alert_input tenant r)) h
unfolding AlertService.create
create-After p tenant r h =
    After-bind _ _ _ (λ e q. inl (e, h, e, refl, q, refl))
      λ _ _. After-gets-bind _ _ _ (
        After-gets-bind _ _ _ (
          After-write-bind _ _ _ _ (λ e q. inr (_, asked, refl))
            λ _ _.
              After-any_audit-bind p _ _ _ _ _ _ _ _ _ _
                (λ log done. After-pure _ _ (inr (_, asked, refl)))
                (After-pure _ _ (inr (_, asked, refl)))))
  where
    asked :
        {i : Uuid} {t : Time}
        → IsAlertOf tenant r (AlertService.new_alert i t (alert_input tenant r))
    asked = record {
      rule = refl;
      tenant_id = refl;
      severity = refl;
      title = refl;
      message = refl;
      status = refl;
    }
