-- ===== src/Tests/Responses.antt =====
-- The error handler's theorems on concrete errors.
use orchestrix_api.Common.{◌≡◌, ◌≤◌, ◌⊎◌, true, false, none, [], ◌∷◌}
use orchestrix_api.Fault.{sentinel, app, AppError, app_error, conflict, no_cause}
use orchestrix_api.Domain.Errors.{alert_not_found}
use orchestrix_api.Apperror.{handle, debug_level}
use orchestrix_api.Apperror.Mapping.{
  wrap_all, hidden, is_unlisted, handle-wrap_all, handle-sentinel,
}

abbrev a_conflict : AppError
a_conflict = app_error conflict "taken" none 409 no_cause

handle-wrap_all_example :
    (handle (wrap_all ("saving" ∷ []) (app a_conflict)) ≡ handle (app a_conflict))
    × (handle (wrap_all ("finding" ∷ "saving" ∷ []) (sentinel alert_not_found)) ≡ hidden)
handle-wrap_all_example = handle-wrap_all ("saving" ∷ []) "finding" a_conflict alert_not_found

handle-sentinel_example :
    ((is_unlisted alert_not_found ≡ true) × (handle (sentinel alert_not_found) ≡ hidden))
    ⊎ ((is_unlisted alert_not_found ≡ false)
        × (400 ≤ (handle (sentinel alert_not_found)).status)
        × ((handle (sentinel alert_not_found)).status ≤ 429)
        × ((handle (sentinel alert_not_found)).logged ≡ debug_level))
handle-sentinel_example = handle-sentinel alert_not_found
