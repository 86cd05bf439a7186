-- ===== src/Service/Workflow/Requests.antt =====
-- The requests of the workflow service that change something.
use orchestrix_api.Common.{String}
use orchestrix_api.Fault.{Result, ok, err}
use orchestrix_api.Port.Call.{Ports}
use orchestrix_api.Port.Action.{Action}
use orchestrix_api.Service.Workflow.{create, update, delete, execute}
use orchestrix_api.Domain.Values.{Uuid}
use orchestrix_api.Domain.Audit.{
  AuditEvent, workflow_created, workflow_updated, workflow_deleted, workflow_executed,
}
use orchestrix_api.Port.Inputs.{CreateWorkflowInput, UpdateWorkflowInput}

pub data Request : Type 0 where
  creating : CreateWorkflowInput → Request
  updating : Uuid → UpdateWorkflowInput → Request
  deleting : Uuid → Request
  executing : Uuid → String → String → Request

abbrev pub event_of : Request → AuditEvent
event_of (creating input) = workflow_created
event_of (updating id input) = workflow_updated
event_of (deleting id) = workflow_deleted
event_of (executing id user input) = workflow_executed

-- Only whether a request succeeded, or with which error it failed.
abbrev pub forget : {A : Type 0} → Result A → Result (Unit {0})
forget (ok a) = ok tt
forget (err e) = err e

abbrev pub dropping : {A : Type 0} → Action A → Action Unit
dropping m h = (forget (m h).0, (m h).1)

abbrev pub perform : Ports → Request → Action Unit
perform p (creating input) = dropping (create p input)
perform p (updating id input) = dropping (update p id input)
perform p (deleting id) = delete p id
perform p (executing id user input) = dropping (execute p id user input)
