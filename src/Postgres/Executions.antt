-- ===== src/Postgres/Executions.antt =====
-- internal/adapter/driven/postgres/execution.go: ExecutionRepository.
use orchestrix_api.Common.{ℕ, String, Option, some, List, ℤ}
use orchestrix_api.Fault.{Result}
use orchestrix_api.Domain.Errors.{execution_not_found}
use orchestrix_api.Domain.Values.{Uuid}
use orchestrix_api.Domain.Execution.{Execution, ExecutionStatus}
use orchestrix_api.Db.{Session}
use orchestrix_api.Db.Rows.{ExecutionRow}
use orchestrix_api.Db.Executions.{
  CreateExecutionParams, create_execution, get_execution, list_executions,
  list_executions_by_workflow, count_executions, update_execution_status,
  update_execution_temporal_ids,
}
use orchestrix_api.Postgres.{found, error_of, each}
use orchestrix_api.Postgres.Texts.{execution_status_text, execution_status_of}

unfoldable pub to_domain : ExecutionRow → Execution
unfolding execution_status_of
to_domain r = record {
  id = r.id;
  tenant_id = r.tenant_id;
  workflow_id = r.workflow_id;
  temporal_workflow_id = r.temporal_workflow_id;
  temporal_run_id = r.temporal_run_id;
  status = execution_status_of r.status;
  input = r.input;
  output = r.output;
  error = r.error;
  started_at = r.started_at;
  completed_at = r.completed_at;
  created_by = r.created_by;
  created_at = r.created_at;
  triggered_by = r.triggered_by;
}

unfoldable pub find_by_id : Session → Uuid → List ExecutionRow → Result Execution
unfolding get_execution
find_by_id s id rs = found execution_not_found to_domain (get_execution s id rs)

unfoldable pub find_by_tenant :
    (List ExecutionRow → List ExecutionRow)
    → Session
    → Uuid
    → ℤ
    → ℤ
    → List ExecutionRow
    → Result (List Execution)
unfolding list_executions
find_by_tenant arrange s tenant_id limit offset rs =
    each to_domain (list_executions arrange s tenant_id limit offset rs)

unfoldable pub find_by_workflow :
    (List ExecutionRow → List ExecutionRow)
    → Session
    → Uuid
    → ℤ
    → ℤ
    → List ExecutionRow
    → Result (List Execution)
unfolding list_executions_by_workflow
find_by_workflow arrange s workflow_id limit offset rs =
    each to_domain (list_executions_by_workflow arrange s workflow_id limit offset rs)

unfoldable pub count_by_tenant : Session → Uuid → List ExecutionRow → Result ℕ
unfolding count_executions
count_by_tenant s tenant_id rs = count_executions s tenant_id rs

unfoldable pub create_params : Execution → CreateExecutionParams
unfolding execution_status_text
create_params e = record {
  tenant_id = e.tenant_id;
  workflow_id = e.workflow_id;
  temporal_workflow_id = e.temporal_workflow_id;
  status = execution_status_text e.status;
  input = e.input;
  triggered_by = e.triggered_by;
}

unfoldable pub save :
    Session → Execution → List ExecutionRow → Result (Unit {0}) × List ExecutionRow
unfolding create_execution create_params
save s e rs = let (r, rs') = create_execution s (create_params e) rs in (error_of r, rs')

unfoldable pub update :
    Session → Execution → List ExecutionRow → Result (Unit {0}) × List ExecutionRow
unfolding update_execution_status execution_status_text
update s e rs = update_execution_status s e.id (execution_status_text e.status) e.error rs

unfoldable pub update_status :
    Session
    → Uuid
    → ExecutionStatus
    → Option String
    → List ExecutionRow
    → Result (Unit {0}) × List ExecutionRow
unfolding update_execution_status execution_status_text
update_status s id status message rs =
    update_execution_status s id (execution_status_text status) message rs

unfoldable pub update_temporal_ids :
    Session → Uuid → String → String → List ExecutionRow → Result (Unit {0}) × List ExecutionRow
unfolding update_execution_temporal_ids
update_temporal_ids s id workflow_id run_id rs =
    update_execution_temporal_ids s id (some workflow_id) (some run_id) rs
