-- ===== src/Service/Execution.antt =====
-- internal/core/service/execution.go
pub mod Cancelling
use orchestrix_api.Common.{String, Option, none, some, ℤ, page_offset, length, if◌then◌else◌}
use orchestrix_api.Fault.{sentinel}
use orchestrix_api.Domain.Errors.{execution_cannot_cancel}
use orchestrix_api.Domain.Values.{Uuid}
use orchestrix_api.Domain.Execution.{Execution, can_cancel, mark_as_cancelled}
use orchestrix_api.Port.Inputs.{Page}
use orchestrix_api.Port.Call.{Ports, cancel_workflow, update_execution}
use orchestrix_api.Port.Action.{Action, ask, write, pure, raise, gets, ◌>>=◌, ◌>>◌}
use orchestrix_api.Service.Audit.{set_tenant}

module _ (p : Ports) where
  unfoldable pub list : Uuid → ℤ → ℤ → Action (Page Execution)
  list tenant_id page limit = do
    set_tenant p tenant_id
    let offset = page_offset page limit
    executions ←
        ask "executions by tenant" λ h. p.executions.find_by_tenant h tenant_id limit offset
    total ← ask "executions of tenant" λ h. p.executions.count_by_tenant h tenant_id
    pure (record { items = executions; total = total; page = page; limit = limit })

  unfoldable pub list_by_workflow : Uuid → ℤ → ℤ → Action (Page Execution)
  list_by_workflow workflow_id page limit = do
    let offset = page_offset page limit
    executions ←
        ask "executions by workflow" λ h. p.executions.find_by_workflow h workflow_id limit offset
    pure (record { items = executions; total = length executions; page = page; limit = limit })

  unfoldable pub get_by_id : Uuid → Action Execution
  get_by_id id = ask "execution by id" λ h. p.executions.find_by_id h id

  -- Temporal is asked only if the execution has an id there.
  unfoldable pub cancel_in_temporal : Option String → Action Unit
  cancel_in_temporal none = pure tt
  cancel_in_temporal (some id) = write (cancel_workflow id) λ h. p.executor.cancel h id

  unfoldable pub cancel : Uuid → Action Unit
  unfolding get_by_id
  cancel id = do
    execution ← get_by_id id
    if can_cancel execution
        then (do
          cancel_in_temporal execution.temporal_workflow_id
          now ← gets λ h. p.host.now h 0
          let cancelled = mark_as_cancelled now execution
          write (update_execution cancelled) λ h. p.executions.update h cancelled)
        else raise (sentinel execution_cannot_cancel)
