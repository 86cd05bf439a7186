-- ===== src/Postgres/Workflows.antt =====
-- internal/adapter/driven/postgres/workflow.go: WorkflowRepository.
use orchestrix_api.Common.{ℕ, List, ℤ}
use orchestrix_api.Fault.{Result}
use orchestrix_api.Domain.Errors.{workflow_not_found}
use orchestrix_api.Domain.Values.{Uuid}
use orchestrix_api.Domain.Workflow.{Workflow}
use orchestrix_api.Db.{Session}
use orchestrix_api.Db.Rows.{WorkflowRow}
use orchestrix_api.Db.Workflows.{
  CreateWorkflowParams, UpdateWorkflowParams, create_workflow, get_workflow, list_workflows,
  count_workflows, update_workflow, delete_workflow,
}
use orchestrix_api.Postgres.{uuid_to_pgtype, found, error_of, each}
use orchestrix_api.Postgres.Texts.{workflow_status_text, workflow_status_of}

unfoldable pub to_domain : WorkflowRow → Workflow
unfolding workflow_status_of
to_domain r = record {
  id = r.id;
  tenant_id = r.tenant_id;
  name = r.name;
  description = r.description;
  definition = r.definition;
  schedule = r.schedule;
  status = workflow_status_of r.status;
  version = r.version;
  created_by = r.created_by;
  created_at = r.created_at;
  updated_at = r.updated_at;
}

unfoldable pub find_by_id : Session → Uuid → List WorkflowRow → Result Workflow
unfolding get_workflow
find_by_id s id rs = found workflow_not_found to_domain (get_workflow s id rs)

unfoldable pub find_by_tenant :
    (List WorkflowRow → List WorkflowRow)
    → Session
    → Uuid
    → ℤ
    → ℤ
    → List WorkflowRow
    → Result (List Workflow)
unfolding list_workflows
find_by_tenant arrange s tenant_id limit offset rs =
    each to_domain (list_workflows arrange s tenant_id limit offset rs)

unfoldable pub count_by_tenant : Session → Uuid → List WorkflowRow → Result ℕ
unfolding count_workflows
count_by_tenant s tenant_id rs = count_workflows s tenant_id rs

unfoldable pub create_params : Workflow → CreateWorkflowParams
unfolding workflow_status_text uuid_to_pgtype
create_params w = record {
  tenant_id = w.tenant_id;
  name = w.name;
  description = w.description;
  definition = w.definition;
  schedule = w.schedule;
  status = workflow_status_text w.status;
  created_by = uuid_to_pgtype w.created_by;
}

unfoldable pub save : Session → Workflow → List WorkflowRow → Result (Unit {0}) × List WorkflowRow
unfolding create_workflow create_params
save s w rs = let (r, rs') = create_workflow s (create_params w) rs in (error_of r, rs')

unfoldable pub update_params : Workflow → UpdateWorkflowParams
unfolding workflow_status_text
update_params w = record {
  id = w.id;
  name = w.name;
  description = w.description;
  definition = w.definition;
  schedule = w.schedule;
  status = workflow_status_text w.status;
}

unfoldable pub update : Session → Workflow → List WorkflowRow → Result (Unit {0}) × List WorkflowRow
unfolding update_workflow update_params
update s w rs = let (r, rs') = update_workflow s (update_params w) rs in (error_of r, rs')

unfoldable pub delete : Session → Uuid → List WorkflowRow → Result (Unit {0}) × List WorkflowRow
unfolding delete_workflow
delete s id rs = delete_workflow s id rs
