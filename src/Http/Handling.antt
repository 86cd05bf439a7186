-- ===== src/Http/Handling.antt =====
-- internal/adapter/driving/http: what the handlers share. A handler is given the request as it takes
-- it apart, runs a method of a service, and replies.
use orchestrix_api.Common.{
  ℕ, String, Bool, true, false, Option, none, some, List, [], ◌∷◌, ℤ, wrap, if◌then◌else◌,
}
use orchestrix_api.Fault.{Error, Result, ok, err, is_error}
use orchestrix_api.Domain.Errors.{DomainError}
use orchestrix_api.Domain.Values.{Uuid}
use orchestrix_api.Auth.{User}
use orchestrix_api.Port.Inputs.{Page}
use orchestrix_api.Port.Call.{Ports, History}
use orchestrix_api.Port.Action.{Action}
use orchestrix_api.Http.Pagination.{parse_pagination}

-- The user of the context, the id of the URL, and the numbers of the query, 0 where there is none.
pub record Params : Type 0 where
  pub user : Option User
  pub id : String
  pub page : ℤ
  pub limit : ℤ

-- respondError, respondJSON with a DataResponse or a PaginatedResponse, and WriteHeader(204).
pub data Reply (A : Type 0) : Type 0 where
  refused : ℕ → String → Reply A
  replied : ℕ → A → Reply A
  listed : List A → ℕ → ℤ → ℤ → Reply A
  no_content : Reply A

abbrev pub Handler : Type 0 → Type 0
Handler A = History → Reply A × History

unfoldable pub with_user : {A : Type 0} → Option User → (User → Handler A) → Handler A
with_user none f h = (refused 401 "unauthorized", h)
with_user (some u) f h = f u h

abbrev pub with_parsed : {A : Type 0} → Uuid × Option Error → (Uuid → Handler A) → Handler A
with_parsed (id, some e) f h = (refused 400 "invalid id", h)
with_parsed (id, none) f h = f id h

unfoldable pub with_id : {A : Type 0} → Ports → String → (Uuid → Handler A) → Handler A
with_id p s f h = with_parsed (p.host.parse_uuid s) f h

-- The body of the request; none if it does not decode.
unfoldable pub with_body : {R A : Type 0} → Option R → (R → Handler A) → Handler A
with_body none f h = (refused 400 "invalid request body", h)
with_body (some r) f h = f r h

-- `if errors.Is(err, ...) { respondError(...) }`: the sentinel, the status and the message.
pub record Case : Type 0 where
  pub target : DomainError → Bool
  pub status : ℕ
  pub message : String

unfoldable pub refuse : {A : Type 0} → List Case → String → Error → Reply A
refuse [] message e = refused 500 message
refuse (c ∷ cs) message e =
    if is_error c.target e then refused c.status c.message else refuse cs message e

abbrev pub reply_to : {A B : Type 0} → List Case → String → (B → Reply A) → Result B → Reply A
reply_to cases message f (ok b) = f b
reply_to cases message f (err e) = refuse cases message e

-- A call of a service, its error cases with the message of any other error, and the reply otherwise.
unfoldable pub serve : {A B : Type 0} → List Case → String → (B → Reply A) → Action B → Handler A
unfolding refuse
serve cases message f action h = (reply_to cases message f (action h).0, (action h).1)

unfoldable pub paginated : {A : Type 0} → ℤ → ℤ → Page A → Reply A
paginated page limit r = listed r.items r.total (wrap 32 page) (wrap 32 limit)

-- The handlers List, which differ in the service and the message.
unfoldable pub list_with :
    {A : Type 0} → String → (User → ℤ → ℤ → Action (Page A)) → Params → Handler A
unfolding with_user serve paginated parse_pagination
list_with message list q = with_user q.user λ u.
    let (page, limit) = parse_pagination q.page q.limit in
    serve [] message (paginated page limit) (list u page limit)

abbrev pub is_workflow_not_found : DomainError → Bool
is_workflow_not_found DomainError.workflow_not_found = true
is_workflow_not_found _ = false

abbrev pub is_workflow_cannot_execute : DomainError → Bool
is_workflow_cannot_execute DomainError.workflow_cannot_execute = true
is_workflow_cannot_execute _ = false

abbrev pub is_alert_not_found : DomainError → Bool
is_alert_not_found DomainError.alert_not_found = true
is_alert_not_found _ = false

abbrev pub is_alert_already_acknowledged : DomainError → Bool
is_alert_already_acknowledged DomainError.alert_already_acknowledged = true
is_alert_already_acknowledged _ = false

abbrev pub is_alert_already_resolved : DomainError → Bool
is_alert_already_resolved DomainError.alert_already_resolved = true
is_alert_already_resolved _ = false

abbrev pub is_execution_not_found : DomainError → Bool
is_execution_not_found DomainError.execution_not_found = true
is_execution_not_found _ = false

abbrev pub is_execution_cannot_cancel : DomainError → Bool
is_execution_cannot_cancel DomainError.execution_cannot_cancel = true
is_execution_cannot_cancel _ = false

abbrev pub is_alert_rule_not_found : DomainError → Bool
is_alert_rule_not_found DomainError.alert_rule_not_found = true
is_alert_rule_not_found _ = false

abbrev pub is_audit_log_not_found : DomainError → Bool
is_audit_log_not_found DomainError.audit_log_not_found = true
is_audit_log_not_found _ = false

abbrev pub case : (DomainError → Bool) → ℕ → String → Case
case target status message = record { target = target; status = status; message = message }
