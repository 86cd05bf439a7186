-- ===== src/Http/AuditLogs.antt =====
-- internal/adapter/driving/http/audit.go: AuditHandler.
use orchestrix_api.Common.{[], ◌∷◌}
use orchestrix_api.Domain.Audit.{AuditLog}
use orchestrix_api.Port.Call.{Ports}
use orchestrix_api.Service.Audit as AuditService
use orchestrix_api.Http.Handling.{
  Params, Handler, replied, with_user, with_id, serve, list_with, case, is_audit_log_not_found,
}

module _ (p : Ports) where
  unfoldable pub list : Params → Handler AuditLog
  unfolding list_with
  list q =
      list_with "failed to list audit logs"
        (λ u page limit. AuditService.list p u.tenant_id page limit) q

  unfoldable pub get : Params → Handler AuditLog
  unfolding with_user with_id serve
  get q = with_user q.user λ u. with_id p q.id λ id.
      serve (case is_audit_log_not_found 404 "audit log not found" ∷ []) "failed to get audit log"
        (λ l. replied 200 l) (AuditService.get_by_id p id)
