-- ===== src/Postgres/Storing.antt =====
-- What the repositories keep of an entity: a transition of an alert, an execution on its way, and
-- rules by their ID.
use orchestrix_api.Common.{◌≡◌, Option, none, some, List}
use orchestrix_api.Fault.{ok}
use orchestrix_api.Domain.Values.{Uuid, Time}
use orchestrix_api.Domain.Alert.{Alert, acknowledged, resolved}
use orchestrix_api.Domain.Alert.Lifecycle.{Action, acknowledging, resolving}
use orchestrix_api.Db.{Session, row}
use orchestrix_api.Db.Rows.{AlertRow}
use orchestrix_api.Db.Alerts.{get_alert}
use orchestrix_api.Postgres.{uuid_to_pgtype}
use orchestrix_api.Postgres.Alerts as Alerts

-- An update and the read after it.
abbrev pub UpdatesTo : Session → Session → List AlertRow → Alert → Alert → Type 0
UpdatesTo s' s'' rs a stored =
    ((Alerts.update s' a rs).0 ≡ ok tt)
    × (Alerts.find_by_id s'' a.id (Alerts.update s' a rs).1 ≡ ok stored)

module _ (s s' s'' : Session) (rs : List AlertRow) (r : AlertRow)
    (stored : get_alert s r.id rs ≡ row r) (up : s.fault ≡ none) (up' : s'.fault ≡ none)
    (up'' : s''.fault ≡ none) (now : Time) (user : Uuid) where
  abbrev acknowledged_alert : Option Uuid → Time → Alert
  acknowledged_alert who at = record (Alerts.to_domain r) {
    status = acknowledged;
    acknowledged_at = some at;
    acknowledged_by = who;
  }

  abbrev resolved_alert : Option Uuid → Time → Alert
  resolved_alert who at = record (Alerts.to_domain r) {
    status = resolved;
    resolved_at = some at;
    resolved_by = who;
  }

-- An alert as the table keeps it after an action: as the domain leaves it, but at the time of the
-- database, and with no user in place of `uuid.Nil`.
abbrev pub kept : Session → Action → Alert → Alert
kept s (acknowledging t user) a = record a {
  status = acknowledged;
  acknowledged_at = some s.now;
  acknowledged_by = uuid_to_pgtype (some user);
}
kept s (resolving t user) a = record a {
  status = resolved;
  resolved_at = some s.now;
  resolved_by = uuid_to_pgtype (some user);
}
