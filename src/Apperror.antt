-- ===== src/Apperror.antt =====
-- pkg/apperror/error.go and pkg/apperror/handler.go
pub mod Constructors
pub mod Mapping
pub mod Merging
use orchestrix_api.Common.{
  ℕ, String, ◌+++◌, Bool, true, false, Option, none, some, List, [], ◌∷◌, str_eq, leb, insert,
  if◌then◌else◌,
}
use orchestrix_api.Fault.{
  ErrorCode, validation, not_found, unauthorized, forbidden, conflict, bad_request,
  too_many_requests, internal, unavailable, timeout, Detail, text, fields, Details, Error, sentinel,
  app, wrapped, other, AppError, app_error, Cause, no_cause, cause,
}
use orchestrix_api.Domain.Errors.{DomainError}
use orchestrix_api.Apperror.Constructors as Make

-- GetAppError: errors.As takes the first AppError of the chain of wrapped errors.
unfoldable pub get_app_error : Error → Option AppError
get_app_error (sentinel e) = none
get_app_error (app a) = some a
get_app_error (wrapped prefix e) = get_app_error e
get_app_error (other message) = none

abbrev pub status_of : AppError → ℕ
status_of (app_error code message details status c) = status

abbrev pub code_of : AppError → ErrorCode
code_of (app_error code message details status c) = code

unfoldable pub get_http_status : Error → ℕ
unfolding get_app_error
get_http_status e = elim (get_app_error e) [ some a ↦ status_of a | none ↦ 500 ]

-- The `switch` of mapDomainError over the sentinels; it has no case for those that give none.
unfoldable pub map_sentinel : DomainError → Option AppError
unfolding Make.not_found_of Make.bad_request_of Make.validation_of Make.conflict_of
    Make.too_many_requests_of Make.unauthorized_of Make.forbidden_of
map_sentinel DomainError.workflow_not_found = some (Make.not_found_of "workflow")
map_sentinel DomainError.workflow_cannot_execute =
    some (Make.bad_request_of "workflow cannot be executed in current state")
map_sentinel DomainError.invalid_definition =
    some (Make.validation_of "invalid workflow definition")
map_sentinel DomainError.no_steps = some (Make.validation_of "workflow must have at least one step")
map_sentinel DomainError.execution_not_found = some (Make.not_found_of "execution")
map_sentinel DomainError.execution_not_running =
    some (Make.bad_request_of "execution is not running")
map_sentinel DomainError.execution_cannot_cancel =
    some (Make.bad_request_of "execution cannot be cancelled")
map_sentinel DomainError.alert_not_found = some (Make.not_found_of "alert")
map_sentinel DomainError.alert_already_acknowledged =
    some (Make.conflict_of "alert is already acknowledged")
map_sentinel DomainError.alert_already_resolved =
    some (Make.conflict_of "alert is already resolved")
map_sentinel DomainError.alert_rule_not_found = some (Make.not_found_of "alert rule")
map_sentinel DomainError.invalid_condition_type = some (Make.validation_of "invalid condition type")
map_sentinel DomainError.invalid_condition_config =
    some (Make.validation_of "invalid condition configuration")
map_sentinel DomainError.invalid_operator = some (Make.validation_of "invalid operator")
map_sentinel DomainError.rule_on_cooldown =
    some (Make.too_many_requests_of "alert rule is on cooldown")
map_sentinel DomainError.audit_log_not_found = some (Make.not_found_of "audit log")
map_sentinel DomainError.not_found = some (Make.not_found_of "resource")
map_sentinel DomainError.unauthorized = some (Make.unauthorized_of "")
map_sentinel DomainError.forbidden = some (Make.forbidden_of "")
map_sentinel _ = none

-- The `switch` compares the error itself, so a wrapped sentinel meets the default.
unfoldable pub map_domain_error : Error → AppError
unfolding map_sentinel Make.internal_of
map_domain_error (sentinel e) = elim (map_sentinel e) [
  | some a ↦ a
  | none ↦ Make.internal_of (sentinel e)
]
map_domain_error e = Make.internal_of e

-- The AppError that was found in the chain of an error, or the one that it is mapped to.
abbrev pub found_or_mapped : Option AppError → Error → AppError
found_or_mapped (some a) e = a
found_or_mapped none e = map_domain_error e

unfoldable pub to_app_error : Error → AppError
unfolding get_app_error map_domain_error
to_app_error e = found_or_mapped (get_app_error e) e

-- What a request is answered with, and the level at which the error was logged.
pub data LogLevel : Type 0 where
  error_level debug_level : LogLevel

pub record Reply : Type 0 where
  pub logged : LogLevel
  pub status : ℕ
  pub code : ErrorCode
  pub message : String
  pub details : Details

-- writeError after the log entry of Handle. Encoding the body is left to encoding/json.
unfoldable pub reply : AppError → Reply
reply (app_error code message details status c) = record {
  logged = if leb 500 status then error_level else debug_level;
  status = status;
  code = code;
  message = message;
  details = details;
}

unfoldable pub handle : Error → Reply
unfolding to_app_error reply
handle e = reply (to_app_error e)

-- The loop of HandleWithContext.
unfoldable pub put_all : List (String × Detail) → List (String × Detail) → List (String × Detail)
put_all [] m = m
put_all ((k, v) ∷ context) m = put_all context (insert k v m)

abbrev pub merge_context : List (String × Detail) → Details → Details
merge_context context none = some context
merge_context context (some m) = some (put_all context m)

abbrev pub add_context : List (String × Detail) → AppError → AppError
add_context context (app_error code message details status c) =
    app_error code message (merge_context context details) status c

unfoldable pub handle_with_context : Error → List (String × Detail) → Reply
unfolding to_app_error handle put_all
handle_with_context e context = handle (app (add_context context (to_app_error e)))
