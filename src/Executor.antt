-- ===== src/Executor.antt =====
-- internal/adapter/driven/temporal/executor.go: WorkflowExecutor, with the starts that it asks of
-- Temporal.
pub mod Starting
use orchestrix_api.Common.{
  ℕ, String, ◌+++◌, ◌≡◌, refl, ap, sym, ◌∙◌, Bool, true, false, Option, none, some, List, [], ◌∷◌,
  str_eq, if◌then◌else◌, Bool-cases, inl, inr,
}
use orchestrix_api.Fault.{Error, sentinel, wrapped, Result, ok, err}
use orchestrix_api.Domain.Errors.{workflow_cannot_execute, invalid_definition}
use orchestrix_api.Domain.Values.{Uuid}
use orchestrix_api.Domain.Workflow.{Workflow, WorkflowDefinition, can_execute, parse_definition}
use orchestrix_api.Engine.Definition.{decimal}
use orchestrix_api.Port.Call.{ExecuteResult}

-- A start: client.StartWorkflowOptions, the name of the workflow and its arguments.
pub record Start : Type 0 where
  pub id : String
  pub task_queue : String
  pub workflow : String
  pub definition : WorkflowDefinition
  pub input : String

-- The client of Temporal, and the text of a UUID.
pub record Client : Type 0 where
  pub execute_workflow : Start → Result ExecuteResult
  pub cancel_workflow : String → Result (Unit {0})
  pub describe : String → Result String
  pub uuid_text : Uuid → String

-- NewWorkflowExecutor: the queue by the environment.
unfoldable pub task_queue_of : String → String
task_queue_of s = if str_eq s "" then "orchestrix-queue" else s

module _ (c : Client) (task_queue : String) where
  unfoldable pub workflow_id_of : Workflow → String
  workflow_id_of w = "workflow-" +++ c.uuid_text w.id +++ "-" +++ decimal w.version

  unfoldable pub start_of : Workflow → WorkflowDefinition → String → Start
  unfolding workflow_id_of
  start_of w def input = record {
    id = workflow_id_of w;
    task_queue = task_queue;
    workflow = "DynamicWorkflow";
    definition = def;
    input = input;
  }

  abbrev pub started : Result ExecuteResult → Result ExecuteResult
  started (ok run) = ok run
  started (err e) = err (wrapped "failed to start workflow" e)

  abbrev pub with_definition :
      Workflow → String → Option WorkflowDefinition → Result ExecuteResult × List Start
  with_definition w input none =
      (err (wrapped "failed to parse workflow definition" (sentinel invalid_definition)), [])
  with_definition w input (some def) =
      (started (c.execute_workflow (start_of w def input)), start_of w def input ∷ [])

  unfoldable pub execute : Workflow → String → Result ExecuteResult × List Start
  execute w input =
      if can_execute w
      then with_definition w input (parse_definition w)
      else (err (sentinel workflow_cannot_execute), [])

  unfoldable pub cancel : String → Result (Unit {0})
  cancel id = c.cancel_workflow id

  unfoldable pub get_status : String → Result String
  get_status id = elim (c.describe id) [
    | ok status ↦ ok status
    | err e ↦ err (wrapped "failed to describe workflow" e)
  ]
