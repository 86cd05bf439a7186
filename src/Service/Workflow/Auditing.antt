-- ===== src/Service/Workflow/Auditing.antt =====
-- The audit records of the workflow service.
use orchestrix_api.Common.{◌≡◌, refl, true, List, [], ◌∷◌, ◌++◌, map, String}
use orchestrix_api.Fault.{Result, ok, err}
use orchestrix_api.Domain.Values.{Uuid}
use orchestrix_api.Domain.Workflow.{Workflow, can_execute}
use orchestrix_api.Domain.Execution.{Execution}
use orchestrix_api.Domain.Audit.{
  AuditLog, AuditEvent, AuditAction, workflow_created, workflow_updated, workflow_deleted,
  workflow_executed, new_audit_log, with_old_value, with_new_value,
}
use orchestrix_api.Port.Inputs.{CreateWorkflowInput, UpdateWorkflowInput}
use orchestrix_api.Port.Call.{Ports, History}
use orchestrix_api.Port.Trace.{audit_trail}
use orchestrix_api.Port.After.{
  After, After-pure, After-raise, After-if, After-bind, After-gets-bind, After-ask-bind,
  After-write-bind, After-attempt-write-bind, After-map_error-write-bind, After-ignore-write-bind,
}
use orchestrix_api.Service.Audit.{After-record_audit-bind}
use orchestrix_api.Service.Workflow.Requests.{
  Request, creating, updating, deleting, executing, event_of, forget, perform,
}
use orchestrix_api.Service.Workflow.{create, update, delete, execute}

abbrev pub kind : AuditLog → AuditEvent × AuditAction
kind log = (log.event_type, log.action)

-- The one record of a success: its action is `create`, whatever the event.
abbrev pub expected {ℓ} : {A : Type ℓ} → AuditEvent → Result A → List (AuditEvent × AuditAction)
expected event (ok a) = (event, AuditAction.create) ∷ []
expected event (err e) = []

abbrev Audited : {A : Type 0} → AuditEvent → History → Result A → History → Type 0
Audited event h r h' = map kind (audit_trail h') ≡ expected event r ++ map kind (audit_trail h)

module _ (p : Ports) (on : p.has_audit_service ≡ true) where
  create-After :
      (input : CreateWorkflowInput) (h : History)
      → After (Audited {A = Workflow} workflow_created h) (create p input) h
  unfolding create new_audit_log with_old_value with_new_value
  create-After input h =
      After-bind _ _ _ (λ e q. refl)
        λ _ _. After-gets-bind _ _ _ (
          After-gets-bind _ _ _ (
            After-gets-bind _ _ _ (
              After-write-bind _ _ _ _ (λ e q. refl)
                λ _ _.
                  After-record_audit-bind p _ _ _ _ _ _ _ _ _ _ on (λ done. After-pure _ _ refl))))

  update-After :
      (id : Uuid) (input : UpdateWorkflowInput) (h : History)
      → After (Audited {A = Workflow} workflow_updated h) (update p id input) h
  unfolding update new_audit_log with_old_value with_new_value
  update-After id input h =
      After-ask-bind _ _ _ _ (λ e q. refl)
        λ _ _. After-gets-bind _ _ _ (
          After-write-bind _ _ _ _ (λ e q. refl)
            λ _ _. After-record_audit-bind p _ _ _ _ _ _ _ _ _ _ on (λ done. After-pure _ _ refl))

  delete-After :
      (id : Uuid) (h : History) → After (Audited {A = Unit} workflow_deleted h) (delete p id) h
  unfolding delete new_audit_log with_old_value with_new_value
  delete-After id h =
      After-ask-bind _ _ _ _ (λ e q. refl)
        λ _ _.
          After-write-bind _ _ _ _ (λ e q. refl)
            λ _ _. After-record_audit-bind p _ _ _ _ _ _ _ _ _ _ on (λ done. After-pure _ _ refl)

  execute-After :
      (id : Uuid) (user input : String) (h : History)
      → After (Audited {A = Execution} workflow_executed h) (execute p id user input) h
  unfolding execute new_audit_log with_old_value with_new_value
  execute-After id user input h =
      After-ask-bind _ _ _ _ (λ e q. refl)
        λ w _.
          After-if (can_execute w) _ _ _
            (λ can. After-gets-bind _ _ _ (
              After-gets-bind _ _ _ (
                After-map_error-write-bind _ _ _ _ _ (λ e q. refl)
                  λ _ _.
                    After-attempt-write-bind _ _ _ _
                      (λ e q.
                        After-gets-bind _ _ _
                          (After-ignore-write-bind _ _ _ _ λ done. After-raise _ _ refl))
                      (λ r q. After-gets-bind _ _ _ (
                        After-map_error-write-bind _ _ _ _ _ (λ e q. refl)
                          λ _ _.
                            After-record_audit-bind p _ _ _ _ _ _ _ _ _ _ on
                              (λ done. After-pure _ _ refl))))))
            (λ cannot. After-raise _ _ refl)

expected-forget :
    {A : Type 0} (event : AuditEvent) (r : Result A) → expected event (forget r) ≡ expected event r
expected-forget event (ok a) = refl
expected-forget event (err e) = refl

-- With an audit service, a request that succeeds asks for exactly one audit record, with the event
-- of the request and the action `create`, also for an update, a deletion or an execution; one that
-- fails asks for none.
pub workflow_audit_trail :
    (p : Ports) (r : Request) (h : History)
    → p.has_audit_service ≡ true
    → map kind (audit_trail (perform p r h).1)
      ≡ expected (event_of r) (perform p r h).0 ++ map kind (audit_trail h)
workflow_audit_trail p (creating input) h on =
    rw (expected-forget workflow_created (create p input h).0) (create-After p on input h).at
workflow_audit_trail p (updating id input) h on =
    rw (expected-forget workflow_updated (update p id input h).0) (update-After p on id input h).at
workflow_audit_trail p (deleting id) h on = (delete-After p on id h).at
workflow_audit_trail p (executing id user input) h on =
    rw (expected-forget workflow_executed (execute p id user input h).0)
      (execute-After p on id user input h).at
