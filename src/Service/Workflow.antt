-- ===== src/Service/Workflow.antt =====
-- internal/core/service/workflow.go
pub mod Requests
pub mod Auditing
pub mod Executing
pub mod Updating
use orchestrix_api.Common.{
  ℕ, String, Option, none, some, ℤ, page_offset, length, override, override_pointer, if◌then◌else◌,
}
use Prim.Native.String.{◌++◌}
use orchestrix_api.Fault.{Error, sentinel, wrapped, Result, ok, err}
use orchestrix_api.Domain.Errors.{workflow_cannot_execute}
use orchestrix_api.Domain.Values.{Uuid, nil_uuid, Time, absent, parsed, override_raw}
use orchestrix_api.Domain.Workflow.{Workflow, draft, can_execute}
use orchestrix_api.Domain.Execution.{Execution, pending, mark_as_running, mark_as_failed}
use orchestrix_api.Domain.Audit.{
  AuditEvent, AuditAction, workflow_created, workflow_updated, workflow_deleted, workflow_executed,
  ResourceType, Entity, of_workflow, of_execution,
}
use orchestrix_api.Port.Inputs.{Page, CreateWorkflowInput, UpdateWorkflowInput}
use orchestrix_api.Port.Call.{
  Ports, ExecuteResult, save_workflow, update_workflow, delete_workflow, save_execution,
  update_execution, start_workflow,
}
use orchestrix_api.Port.Action.{
  Action, ask, write, pure, raise, gets, ignore, attempt, map_error, ◌>>=◌, ◌>>◌,
}
use orchestrix_api.Service.Audit.{set_tenant, record_audit}

-- The literal of Create.
abbrev pub new_workflow : Uuid → Time → Time → CreateWorkflowInput → Workflow
new_workflow id created updated input = record {
  id = id;
  tenant_id = input.tenant_id;
  name = input.name;
  description = input.description;
  definition = input.definition;
  schedule = input.schedule;
  status = draft;
  version = 1;
  created_by = input.created_by;
  created_at = created;
  updated_at = updated;
}

-- The assignments of Update.
unfoldable pub apply_update : Time → UpdateWorkflowInput → Workflow → Workflow
apply_update now input w = record w {
  name = override input.name w.name;
  description = override_pointer input.description w.description;
  definition = override_raw input.definition w.definition;
  schedule = override_pointer input.schedule w.schedule;
  status = override input.status w.status;
  updated_at = now;
}

-- The literal of Execute.
abbrev pub new_execution : Uuid → Time → Uuid → String → String → Workflow → Execution
new_execution id now user user_id input w = record {
  id = id;
  tenant_id = w.tenant_id;
  workflow_id = w.id;
  temporal_workflow_id = none;
  temporal_run_id = none;
  status = pending;
  input = parsed input;
  output = absent;
  error = none;
  started_at = none;
  completed_at = none;
  created_by = some user;
  created_at = now;
  triggered_by = some ("user:" ++ user_id);
}

abbrev pub with_temporal_ids : ExecuteResult → Execution → Execution
with_temporal_ids r e = record e {
  temporal_workflow_id = some r.temporal_workflow_id;
  temporal_run_id = some r.temporal_run_id;
}

module _ (p : Ports) where
  unfoldable pub list : Uuid → ℤ → ℤ → Action (Page Workflow)
  list tenant_id page limit = do
    set_tenant p tenant_id
    let offset = page_offset page limit
    workflows ← ask "workflows by tenant" λ h. p.workflows.find_by_tenant h tenant_id limit offset
    total ← ask "workflows of tenant" λ h. p.workflows.count_by_tenant h tenant_id
    pure (record { items = workflows; total = total; page = page; limit = limit })

  unfoldable pub get_by_id : Uuid → Action Workflow
  get_by_id id = ask "workflow by id" λ h. p.workflows.find_by_id h id

  -- Whatever the event, the action is `ActionCreate`.
  unfoldable pub log_audit :
      Uuid → Option Uuid → AuditEvent → Uuid → Option Entity → Option Entity → Action Unit
  log_audit tenant_id user_id event resource_id old new =
      record_audit p tenant_id user_id event ResourceType.workflow resource_id AuditAction.create
        old new

  unfoldable pub create : CreateWorkflowInput → Action Workflow
  unfolding log_audit
  create input = do
    set_tenant p input.tenant_id
    id ← gets λ h. p.host.new_uuid h 0
    created ← gets λ h. p.host.now h 0
    updated ← gets λ h. p.host.now h 1
    let workflow = new_workflow id created updated input
    write (save_workflow workflow) λ h. p.workflows.save h workflow
    log_audit input.tenant_id input.created_by workflow_created workflow.id none
        (some (of_workflow workflow))
    pure workflow

  unfoldable pub update : Uuid → UpdateWorkflowInput → Action Workflow
  unfolding log_audit
  update id input = do
    old ← ask "workflow by id" λ h. p.workflows.find_by_id h id
    now ← gets λ h. p.host.now h 0
    let workflow = apply_update now input old
    write (update_workflow workflow) λ h. p.workflows.update h workflow
    log_audit workflow.tenant_id none workflow_updated workflow.id (some (of_workflow old))
        (some (of_workflow workflow))
    pure workflow

  unfoldable pub delete : Uuid → Action Unit
  unfolding log_audit
  delete id = do
    workflow ← ask "workflow by id" λ h. p.workflows.find_by_id h id
    write (delete_workflow id) λ h. p.workflows.delete h id
    log_audit workflow.tenant_id none workflow_deleted workflow.id (some (of_workflow workflow))
        none
    pure tt

  -- What Execute does with the answer of Temporal.
  unfoldable pub finish_execute :
      Workflow → Execution → Uuid → Result ExecuteResult → Action Execution
  unfolding log_audit
  finish_execute workflow execution user (err e) = do
    now ← gets λ h. p.host.now h 0
    let failed = mark_as_failed now (p.host.error_text e) execution
    ignore (write (update_execution failed) λ h. p.executions.update h failed)
    raise (wrapped "failed to start workflow" e)
  finish_execute workflow execution user (ok result) = do
    now ← gets λ h. p.host.now h 0
    let running = mark_as_running now (with_temporal_ids result execution)
    map_error (wrapped "failed to update execution")
        (write (update_execution running) λ h. p.executions.update h running)
    log_audit workflow.tenant_id (some user) workflow_executed workflow.id none
        (some (of_execution running))
    pure running

  unfoldable pub execute : Uuid → String → String → Action Execution
  unfolding finish_execute
  execute id user_id input = do
    workflow ← ask "workflow by id" λ h. p.workflows.find_by_id h id
    if can_execute workflow
        then (do
          let user = (p.host.parse_uuid user_id).0
          fresh ← gets λ h. p.host.new_uuid h 0
          now ← gets λ h. p.host.now h 0
          let execution = new_execution fresh now user user_id input workflow
          map_error (wrapped "failed to save execution")
              (write (save_execution execution) λ h. p.executions.save h execution)
          result ←
              attempt
                (write (start_workflow workflow input) λ h. p.executor.execute h workflow input)
          finish_execute workflow execution user result)
        else raise (sentinel workflow_cannot_execute)

  unfoldable pub list_executions : Uuid → ℤ → ℤ → Action (Page Execution)
  list_executions workflow_id page limit = do
    let offset = page_offset page limit
    executions ←
        ask "executions by workflow" λ h. p.executions.find_by_workflow h workflow_id limit offset
    let total = length executions
    pure (record { items = executions; total = total; page = page; limit = limit })
