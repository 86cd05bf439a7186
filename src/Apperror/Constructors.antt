-- ===== src/Apperror/Constructors.antt =====
-- pkg/apperror/error.go: the codes' statuses, and the ways to make an AppError.
use orchestrix_api.Common.{
  ℕ, String, ◌+++◌, none, some, List, [], ◌∷◌, str_eq, insert, if◌then◌else◌,
}
use orchestrix_api.Fault.{
  ErrorCode, validation, not_found, unauthorized, forbidden, conflict, bad_request,
  too_many_requests, internal, unavailable, timeout, Detail, text, fields, Details, Error, AppError,
  app_error, no_cause, cause,
}

unfoldable pub code_to_http_status : ErrorCode → ℕ
code_to_http_status validation = 400
code_to_http_status bad_request = 400
code_to_http_status not_found = 404
code_to_http_status unauthorized = 401
code_to_http_status forbidden = 403
code_to_http_status conflict = 409
code_to_http_status too_many_requests = 429
code_to_http_status unavailable = 503
code_to_http_status timeout = 504
code_to_http_status internal = 500

-- New
unfoldable pub new_error : ErrorCode → String → AppError
unfolding code_to_http_status
new_error code message = app_error code message none (code_to_http_status code) no_cause

unfoldable pub wrap_error : Error → ErrorCode → String → AppError
unfolding code_to_http_status
wrap_error e code message = app_error code message none (code_to_http_status code) (cause e)

unfoldable pub with_details : Details → AppError → AppError
with_details details (app_error code message old status c) = app_error code message details status c

-- WithDetail, on a nil map too.
unfoldable pub put_detail : String → Detail → Details → Details
put_detail key v none = some (insert key v [])
put_detail key v (some m) = some (insert key v m)

unfoldable pub with_detail : String → Detail → AppError → AppError
unfolding put_detail
with_detail key v (app_error code message old status c) =
    app_error code message (put_detail key v old) status c

unfoldable pub not_found_of : String → AppError
not_found_of resource = app_error not_found (resource +++ " not found") none 404 no_cause

unfoldable pub not_found_with_id : String → String → AppError
not_found_with_id resource id =
    app_error not_found (resource +++ " not found") (some (("id", text id) ∷ [])) 404 no_cause

unfoldable pub validation_of : String → AppError
validation_of message = app_error validation message none 400 no_cause

unfoldable pub validation_with_fields : List (String × String) → AppError
validation_with_fields fs =
    app_error validation "validation failed" (some (("fields", fields fs) ∷ [])) 400 no_cause

unfoldable pub bad_request_of : String → AppError
bad_request_of message = app_error bad_request message none 400 no_cause

-- An empty message takes the default one.
abbrev or_default : String → String → String
or_default message default = if str_eq message "" then default else message

unfoldable pub unauthorized_of : String → AppError
unauthorized_of message =
    app_error unauthorized (or_default message "authentication required") none 401 no_cause

unfoldable pub forbidden_of : String → AppError
forbidden_of message = app_error forbidden (or_default message "access denied") none 403 no_cause

unfoldable pub conflict_of : String → AppError
conflict_of message = app_error conflict message none 409 no_cause

unfoldable pub internal_of : Error → AppError
internal_of e = app_error internal "an internal error occurred" none 500 (cause e)

unfoldable pub internal_with_message : String → Error → AppError
internal_with_message message e = app_error internal message none 500 (cause e)

unfoldable pub unavailable_of : String → AppError
unavailable_of message = app_error unavailable message none 503 no_cause

unfoldable pub timeout_of : String → AppError
timeout_of message = app_error timeout message none 504 no_cause

unfoldable pub too_many_requests_of : String → AppError
too_many_requests_of message = app_error too_many_requests message none 429 no_cause
