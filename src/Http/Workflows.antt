-- ===== src/Http/Workflows.antt =====
-- internal/adapter/driving/http/workflow.go: WorkflowHandler.
use orchestrix_api.Common.{String, Option, none, some, [], ◌∷◌, str_eq, if◌then◌else◌}
use orchestrix_api.Fault.{Result, ok, err}
use orchestrix_api.Domain.Values.{Raw, absent}
use orchestrix_api.Domain.Workflow.{Workflow, WorkflowDefinition, WorkflowStatus}
use orchestrix_api.Domain.Execution.{Execution}
use orchestrix_api.Engine.Definition.{Fields}
use orchestrix_api.Auth.{User}
use orchestrix_api.Port.Inputs.{CreateWorkflowInput, UpdateWorkflowInput}
use orchestrix_api.Port.Call.{Ports}
use orchestrix_api.Postgres.Texts.{workflow_status_of}
use orchestrix_api.Service.Workflow as WorkflowService
use orchestrix_api.Http.Handling.{
  Params, Handler, refused, replied, no_content, with_user, with_id, with_body, serve, list_with,
  paginated, case, is_workflow_not_found, is_workflow_cannot_execute,
}
use orchestrix_api.Http.Pagination.{parse_pagination}

-- A map is none where the request has none.
pub record CreateWorkflowRequest : Type 0 where
  pub name : String
  pub description : Option String
  pub definition : Option Fields
  pub schedule : Option String

pub record UpdateWorkflowRequest : Type 0 where
  pub name : Option String
  pub description : Option String
  pub definition : Option Fields
  pub schedule : Option String
  pub status : Option String

-- What json.Marshal makes of a definition and of an input.
pub record Codec : Type 0 where
  pub marshal_definition : Option Fields → Result (Raw WorkflowDefinition)
  pub marshal_input : Option Fields → String

abbrev or_absent : Result (Raw WorkflowDefinition) → Raw WorkflowDefinition
or_absent (ok d) = d
or_absent (err e) = absent

abbrev updated_definition : Codec → Option Fields → Raw WorkflowDefinition
updated_definition c none = absent
updated_definition c (some fs) = or_absent (c.marshal_definition (some fs))

unfoldable status_of : Option String → Option WorkflowStatus
unfolding workflow_status_of
status_of none = none
status_of (some s) = some (workflow_status_of s)

unfoldable pub update_input : Codec → UpdateWorkflowRequest → UpdateWorkflowInput
unfolding status_of
update_input c r = record {
  name = r.name;
  description = r.description;
  definition = updated_definition c r.definition;
  schedule = r.schedule;
  status = status_of r.status;
}

module _ (p : Ports) (c : Codec) where
  unfoldable pub list : Params → Handler Workflow
  unfolding list_with
  list q =
      list_with "failed to list workflows"
        (λ u page limit. WorkflowService.list p u.tenant_id page limit) q

  unfoldable pub get : Params → Handler Workflow
  unfolding with_user with_id serve
  get q = with_user q.user λ u. with_id p q.id λ id.
      serve (case is_workflow_not_found 404 "workflow not found" ∷ []) "failed to get workflow"
        (λ w. replied 200 w) (WorkflowService.get_by_id p id)

  abbrev pub create_input :
      User → CreateWorkflowRequest → Raw WorkflowDefinition → CreateWorkflowInput
  create_input u r definition = record {
    tenant_id = u.tenant_id;
    name = r.name;
    description = r.description;
    definition = definition;
    schedule = r.schedule;
    created_by = some (p.host.parse_uuid u.id).0;
  }

  unfoldable pub create_with :
      User → CreateWorkflowRequest → Result (Raw WorkflowDefinition) → Handler Workflow
  unfolding serve
  create_with u r (err e) h = (refused 400 "invalid definition", h)
  create_with u r (ok definition) h =
      serve [] "failed to create workflow" (λ w. replied 201 w)
        (WorkflowService.create p (create_input u r definition)) h

  unfoldable pub create_valid : User → CreateWorkflowRequest → Handler Workflow
  unfolding create_with
  create_valid u r h =
      if str_eq r.name ""
      then (refused 400 "name is required", h)
      else create_with u r (c.marshal_definition r.definition) h

  unfoldable pub create : Option CreateWorkflowRequest → Params → Handler Workflow
  unfolding with_user with_body create_valid
  create body q = with_user q.user λ u. with_body body λ r. create_valid u r

  unfoldable pub update : Option UpdateWorkflowRequest → Params → Handler Workflow
  unfolding with_user with_id with_body serve update_input
  update body q = with_user q.user λ u. with_id p q.id λ id. with_body body λ r.
      serve (case is_workflow_not_found 404 "workflow not found" ∷ []) "failed to update workflow"
        (λ w. replied 200 w) (WorkflowService.update p id (update_input c r))

  unfoldable pub delete : Params → Handler Workflow
  unfolding with_user with_id serve
  delete q = with_user q.user λ u. with_id p q.id λ id.
      serve (case is_workflow_not_found 404 "workflow not found" ∷ []) "failed to delete workflow"
        (λ done. no_content) (WorkflowService.delete p id)

  -- The body is the map of the input.
  unfoldable pub execute : Option (Option Fields) → Params → Handler Execution
  unfolding with_user with_id with_body serve
  execute body q = with_user q.user λ u. with_id p q.id λ id. with_body body λ input.
      serve
        (case is_workflow_not_found 404 "workflow not found"
          ∷ case is_workflow_cannot_execute 400 "workflow cannot be executed"
          ∷ [])
        "failed to execute workflow" (λ e. replied 202 e)
        (WorkflowService.execute p id u.id (c.marshal_input input))

  unfoldable pub list_executions : Params → Handler Execution
  unfolding with_user with_id serve paginated parse_pagination
  list_executions q = with_user q.user λ u. with_id p q.id λ id.
      let (page, limit) = parse_pagination q.page q.limit in
      serve [] "failed to list executions" (paginated page limit)
        (WorkflowService.list_executions p id page limit)
