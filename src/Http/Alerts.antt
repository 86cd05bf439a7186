-- ===== src/Http/Alerts.antt =====
-- internal/adapter/driving/http/alert.go: AlertHandler.
use orchestrix_api.Common.{String, Option, none, [], ◌∷◌, str_eq, if◌then◌else◌}
use orchestrix_api.Domain.Values.{Uuid}
use orchestrix_api.Domain.Alert.{Alert}
use orchestrix_api.Auth.{User}
use orchestrix_api.Port.Inputs.{CreateAlertInput}
use orchestrix_api.Port.Call.{Ports}
use orchestrix_api.Postgres.Texts.{severity_of}
use orchestrix_api.Service.Alert as AlertService
use orchestrix_api.Http.Handling.{
  Params, Handler, refused, replied, with_user, with_id, with_body, serve, list_with, case,
  is_alert_not_found, is_alert_already_acknowledged, is_alert_already_resolved,
}

pub record CreateAlertRequest : Type 0 where
  pub workflow_id : Option Uuid
  pub execution_id : Option Uuid
  pub severity : String
  pub title : String
  pub message : Option String
  pub source : Option String

abbrev pub create_input : User → CreateAlertRequest → CreateAlertInput
create_input u r = record {
  tenant_id = u.tenant_id;
  workflow_id = r.workflow_id;
  execution_id = r.execution_id;
  severity = severity_of r.severity;
  title = r.title;
  message = r.message;
  source = r.source;
  triggered_by_rule_id = none;
}

module _ (p : Ports) where
  unfoldable pub list : Params → Handler Alert
  unfolding list_with
  list q =
      list_with "failed to list alerts" (λ u page limit. AlertService.list p u.tenant_id page limit)
        q

  unfoldable pub get : Params → Handler Alert
  unfolding with_user with_id serve
  get q = with_user q.user λ u. with_id p q.id λ id.
      serve (case is_alert_not_found 404 "alert not found" ∷ []) "failed to get alert"
        (λ a. replied 200 a) (AlertService.get_by_id p id)

  unfoldable pub create_valid : User → CreateAlertRequest → Handler Alert
  unfolding serve
  create_valid u r h =
      if str_eq r.title ""
      then (refused 400 "title is required", h)
      else if str_eq r.severity ""
      then (refused 400 "severity is required", h)
      else serve [] "failed to create alert" (λ a. replied 201 a)
          (AlertService.create p (create_input u r)) h

  unfoldable pub create : Option CreateAlertRequest → Params → Handler Alert
  unfolding with_user with_body create_valid
  create body q = with_user q.user λ u. with_body body λ r. create_valid u r

  unfoldable pub acknowledge : Params → Handler Alert
  unfolding with_user with_id serve
  acknowledge q = with_user q.user λ u. with_id p q.id λ id.
      serve
        (case is_alert_not_found 404 "alert not found"
          ∷ case is_alert_already_acknowledged 400 "alert already acknowledged"
          ∷ [])
        "failed to acknowledge alert" (λ a. replied 200 a)
        (AlertService.acknowledge p id (p.host.parse_uuid u.id).0)

  unfoldable pub resolve : Params → Handler Alert
  unfolding with_user with_id serve
  resolve q = with_user q.user λ u. with_id p q.id λ id.
      serve
        (case is_alert_not_found 404 "alert not found"
          ∷ case is_alert_already_resolved 400 "alert already resolved"
          ∷ [])
        "failed to resolve alert" (λ a. replied 200 a)
        (AlertService.resolve p id (p.host.parse_uuid u.id).0)
