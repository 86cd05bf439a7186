-- ===== src/Http/Executions.antt =====
-- internal/adapter/driving/http/execution.go: ExecutionHandler.
use orchestrix_api.Common.{[], ◌∷◌}
use orchestrix_api.Domain.Execution.{Execution}
use orchestrix_api.Port.Call.{Ports}
use orchestrix_api.Service.Execution as ExecutionService
use orchestrix_api.Http.Handling.{
  Params, Handler, replied, no_content, with_user, with_id, serve, list_with, case,
  is_execution_not_found, is_execution_cannot_cancel,
}

module _ (p : Ports) where
  unfoldable pub list : Params → Handler Execution
  unfolding list_with
  list q =
      list_with "failed to list executions"
        (λ u page limit. ExecutionService.list p u.tenant_id page limit) q

  unfoldable pub get : Params → Handler Execution
  unfolding with_user with_id serve
  get q = with_user q.user λ u. with_id p q.id λ id.
      serve (case is_execution_not_found 404 "execution not found" ∷ []) "failed to get execution"
        (λ e. replied 200 e) (ExecutionService.get_by_id p id)

  unfoldable pub cancel : Params → Handler Execution
  unfolding with_user with_id serve
  cancel q = with_user q.user λ u. with_id p q.id λ id.
      serve
        (case is_execution_not_found 404 "execution not found"
          ∷ case is_execution_cannot_cancel 400 "execution cannot be cancelled"
          ∷ [])
        "failed to cancel execution" (λ done. no_content) (ExecutionService.cancel p id)
