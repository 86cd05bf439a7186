-- ===== src/Tests/Table.antt =====
-- The theorems on the alerts of the table, at a table of one alert and a database that counts its IDs.
use orchestrix_api.Common.{
  ℕ, ◌<◌, ◌≤◌, ◌+◌, ◌≡◌, refl, false, Option, none, some, List, [], ◌∷◌, length, All, arith, ◌==◌,
  ap, Bool-cases, inl, inr, subst,
}
use orchestrix_api.Fault.{other}
use orchestrix_api.Domain.Values.{Uuid, absent}
use orchestrix_api.Domain.Alert.{Alert, resolved, acknowledge, resolve, AlertStatus}
use orchestrix_api.Domain.Alert.Lifecycle.{IsConsistent, stage}
use orchestrix_api.Port.Call.{History, save_alert, update_alert}
use orchestrix_api.Port.Action.{◌>>=◌}
use orchestrix_api.Db.{Session, first, select, modify}
use orchestrix_api.Db.Rows.{AlertRow}
use orchestrix_api.Db.Reading.{select-none}
use orchestrix_api.Db.Alerts.{has_id, get_alert, create_alert, acknowledge_alert, resolve_alert}
use orchestrix_api.Postgres.{uuid_to_pgtype}
use orchestrix_api.Postgres.Alerts as Alerts
use orchestrix_api.Postgres.Advance.{AllConsistent}
use orchestrix_api.Service.Audit.{record_audit}
use orchestrix_api.Service.Alert as AlertService
use orchestrix_api.Service.Alert.Requests.{Request, creating, acknowledging, resolving, perform_all}
use orchestrix_api.Service.Alert.Stored.{
  table, over_postgres, stored, DrawsFresh, perform_all-IsConsistent, perform_all-stage,
}
use orchestrix_api.Tests.Fixtures.{alert_request, adapters}

-- Each call of a history has a session, with an ID of its own.
abbrev sessions : History → Session
sessions h = record {
  fault = none;
  fresh = 50 + length h;
  now = 100;
  negative_range = other "negative";
}

abbrev open_row : AlertRow
open_row = record {
  id = 5;
  tenant_id = 1;
  workflow_id = none;
  execution_id = none;
  severity = "high";
  title = "cpu";
  message = some "too high";
  status = "open";
  acknowledged_at = none;
  acknowledged_by = none;
  resolved_at = none;
  resolved_by = none;
  created_at = 30;
  triggered_by_rule_id = some 9;
  triggered_workflow_execution_id = none;
  source = none;
  metadata = absent;
}

abbrev rows : List AlertRow
rows = open_row ∷ []

abbrev Below : ℕ → List AlertRow → Type 0
Below n rs = All (λ r. r.id < n) rs

Below-more : (m n : ℕ) → m ≤ n → (rs : List AlertRow) → Below m rs → Below n rs
Below-more m n le [] all = tt
Below-more m n le (r ∷ rs) (q, all) = (omega arith, Below-more m n le rs all)

modify-Below :
    (n k : ℕ) (f : AlertRow → AlertRow)
    → ((x : AlertRow) → (f x).id ≡ x.id)
    → (rs : List AlertRow) → Below n rs
    → Below n (modify (has_id k) f rs)
unfolding modify
modify-Below n k f keep [] all = tt
modify-Below n k f keep (r ∷ rs) (q, all) = (ground (arith, keep r), modify-Below n k f keep rs all)

update_to-Below :
    (n : ℕ) (s : AlertStatus) (h : History) (a : Alert) (rs : List AlertRow)
    → Below n rs
    → Below n (Alerts.update_to s (sessions h) a rs).1
unfolding Alerts.update_to Alerts.acknowledging Alerts.resolving acknowledge_alert resolve_alert
update_to-Below n AlertStatus.opened h a rs all = all
update_to-Below n AlertStatus.triggered h a rs all = all
update_to-Below n (AlertStatus.unknown s) h a rs all = all
update_to-Below n AlertStatus.acknowledged h a rs all = go a.acknowledged_by
  where
    go : (u : Option Uuid) → Below n (Alerts.acknowledging (sessions h) a.id u rs).1
    go none = all
    go (some u) = modify-Below n a.id _ (λ x. refl) rs all
update_to-Below n AlertStatus.resolved h a rs all = go a.resolved_by
  where
    go : (u : Option Uuid) → Below n (Alerts.resolving (sessions h) a.id u rs).1
    go none = all
    go (some u) = modify-Below n a.id _ (λ x. refl) rs all

table-Below : (h : History) → Below (50 + length h) (table sessions rows h)
unfolding Alerts.save create_alert Alerts.update
table-Below [] = (omega arith, tt)
table-Below (save_alert a done ∷ h) =
    (omega arith, Below-more (50 + length h) _ (omega arith) _ (table-Below h))
table-Below (update_alert a done ∷ h) =
    Below-more (50 + length h) _ (omega arith) _
      (update_to-Below (50 + length h) a.status h a _ (table-Below h))
table-Below (_ ∷ h) = Below-more (50 + length h) _ (omega arith) _ (table-Below h)

absent-Below : (n : ℕ) (rs : List AlertRow) → Below n rs → All (λ r. has_id n r ≡ false) rs
absent-Below n [] all = tt
absent-Below n (r ∷ rs) (q, all) = (ground arith, absent-Below n rs all)

sessions-DrawsFresh : DrawsFresh sessions rows
sessions-DrawsFresh h =
    ap first (select-none (has_id (50 + length h)) _ (absent-Below _ _ (table-Below h)))

abbrev requests : List Request
requests = creating alert_request ∷ acknowledging 5 2 ∷ resolving 5 3 ∷ acknowledging 77 2 ∷ []

abbrev after_requests : Uuid → Option Alert
after_requests id =
    stored sessions rows (perform_all (over_postgres adapters sessions rows) requests []) id

abbrev open_alert : Alert
open_alert = Alerts.to_domain open_row

open_row-found : stored sessions rows [] 5 ≡ some open_alert
unfolding select
open_row-found = refl

open_row-AllConsistent : AllConsistent (λ i. stored sessions rows [] i)
unfolding select Alerts.to_domain
open_row-AllConsistent id a q = elim (Bool-cases (5 == id)) [
  | inl e ↦
      let same : open_alert ≡ a = cc (rw e at q) in subst IsConsistent same open_alert-IsConsistent
  | inr e ↦ cc (rw e at q)
]
  where
    open_alert-IsConsistent : IsConsistent open_alert
    open_alert-IsConsistent = ground arith

-- The alert with the times of the database.
abbrev resolved_alert : Alert
resolved_alert = record open_alert {
  status = resolved;
  acknowledged_at = some 100;
  acknowledged_by = some 2;
  resolved_at = some 100;
  resolved_by = some 3;
}

requests_resolve : after_requests 5 ≡ some resolved_alert
unfolding AlertService.create AlertService.acknowledge AlertService.resolve ◌>>=◌ record_audit
    acknowledge resolve Alerts.save create_alert Alerts.update Alerts.update_to Alerts.acknowledging
    Alerts.resolving acknowledge_alert resolve_alert Alerts.find_by_id get_alert Alerts.to_domain
    uuid_to_pgtype select modify
requests_resolve = refl

perform_all-IsConsistent_example : IsConsistent resolved_alert
perform_all-IsConsistent_example =
    perform_all-IsConsistent adapters sessions rows requests [] 5 resolved_alert sessions-DrawsFresh
      (tt, ((λ q. cc q), ((λ q. cc q), ((λ q. cc q), tt)))) open_row-AllConsistent requests_resolve

perform_all-stage_example :
    (b : Alert) × (after_requests 5 ≡ some b) × (stage open_alert.status ≤ stage b.status)
perform_all-stage_example =
    perform_all-stage adapters sessions rows requests [] 5 open_alert sessions-DrawsFresh
      open_row-found
