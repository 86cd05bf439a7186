-- ===== src/Service/Alert/Stored.antt =====
-- What the alert service leaves in the table of alerts, over the repository of Postgres.
use orchestrix_api.Common.{◌≤◌, ◌≡◌, ◌≢◌, Option, some, List, [], ◌∷◌, All}
use orchestrix_api.Domain.Values.{Uuid, nil_uuid}
use orchestrix_api.Domain.Alert.{Alert}
use orchestrix_api.Domain.Alert.Lifecycle.{IsConsistent, stage}
use orchestrix_api.Port.Call.{Ports, History, read, save_alert, update_alert}
use orchestrix_api.Port.Inputs.{CreateAlertInput}
use orchestrix_api.Port.After.{
  After, After-pure, After-bind, After-gets-bind, After-ask-bind, After-write-bind,
  After-from_domain-bind,
}
use orchestrix_api.Service.Audit.{set_tenant, After-any_audit-bind}
use orchestrix_api.Service.Alert.{create, acknowledge, resolve}
use orchestrix_api.Service.Alert.Requests.{
  Request, creating, acknowledging as acknowledging_request, resolving as resolving_request,
  perform, perform_all,
}
use orchestrix_api.Db.{Session, no_rows, first, select}
use orchestrix_api.Db.Rows.{AlertRow}
use orchestrix_api.Db.Alerts.{has_id}
use orchestrix_api.Postgres.Alerts as Alerts
use orchestrix_api.Postgres.Advance.{entry, AllConsistent, Advance, Advance-refl, Advance-trans}
use orchestrix_api.Postgres.Moving.{save-Advance, acknowledged-Advance, resolved-Advance}

-- The table that the calls of a history leave, each in a session of its own; a statement that fails
-- leaves the table as it is.
abbrev pub table : (History → Session) → List AlertRow → History → List AlertRow
table sessions rows [] = rows
table sessions rows (save_alert a done ∷ h) = (Alerts.save (sessions h) a (table sessions rows h)).1
table sessions rows (update_alert a done ∷ h) =
    (Alerts.update (sessions h) a (table sessions rows h)).1
table sessions rows (_ ∷ h) = table sessions rows h

-- The ports with the repository of Postgres for what the requests call of the alerts: a read by ID and
-- the writes.
abbrev pub over_postgres : Ports → (History → Session) → List AlertRow → Ports
over_postgres p sessions rows = record p {
  alerts = record p.alerts {
    find_by_id = λ h id. Alerts.find_by_id (sessions h) id (table sessions rows h);
    save = λ h a. (Alerts.save (sessions h) a (table sessions rows h)).0;
    update = λ h a. (Alerts.update (sessions h) a (table sessions rows h)).0;
  };
}

abbrev pub stored : (History → Session) → List AlertRow → History → Uuid → Option Alert
stored sessions rows h id = entry (table sessions rows h) id

-- `uuid_generate_v4` draws an ID that no row has.
abbrev pub DrawsFresh : (History → Session) → List AlertRow → Type 0
DrawsFresh sessions rows =
    (h : History) → first (select (has_id (sessions h).fresh) (table sessions rows h)) ≡ no_rows

-- The user of a request is not `uuid.Nil`, which the repository writes as NULL.
abbrev pub IsNamed : Request → Type 0
IsNamed (creating input) = Unit
IsNamed (acknowledging_request id user) = user ≢ nil_uuid
IsNamed (resolving_request id user) = user ≢ nil_uuid

module _ (ports : Ports) (sessions : History → Session) (rows : List AlertRow)
    (fresh : DrawsFresh sessions rows) where
  abbrev p : Ports
  p = over_postgres ports sessions rows

  abbrev Advances : Type 0 → History → History → Type 0
  Advances N h h' = Advance N (λ id. stored sessions rows h id) (λ id. stored sessions rows h' id)

  still : (N : Type 0) (h : History) → Advances N h h
  still N h = Advance-refl N (λ id. stored sessions rows h id)

  create-Advances :
      (input : CreateAlertInput) (h : History)
      → After (λ res h'. Advances Unit h h') (create p input) h
  unfolding create
  create-Advances input h =
      let h1 = (set_tenant p input.tenant_id h).1 in
      let created =
        save-Advance (sessions h1) (table sessions rows h) Unit (p.host.new_uuid h1 0)
          (p.host.now h1 0) input (fresh h1) in
      After-bind _ _ _ (λ e q. still Unit h)
        λ _ _. After-gets-bind _ _ _ (
          After-gets-bind _ _ _ (
            After-write-bind _ _ _ _ (λ e q. created)
              λ _ _.
                After-any_audit-bind p _ _ _ _ _ _ _ _ _ _ (λ log done. After-pure _ _ created)
                  (After-pure _ _ created)))

  acknowledge-Advances :
      (id user : Uuid) (h : History)
      → After (λ res h'. Advances (user ≢ nil_uuid) h h') (acknowledge p id user) h
  unfolding acknowledge
  acknowledge-Advances id user h =
      After-ask-bind _ _ _ _ (λ e q. still (user ≢ nil_uuid) h)
        λ a q.
          let h1 : History = read "alert by id" ∷ h in
          After-gets-bind _ _ _ (
            After-from_domain-bind _ _ _ (λ e q. still (user ≢ nil_uuid) h)
              λ done.
                let changed =
                  acknowledged-Advance (sessions h1) (table sessions rows h) (sessions h) id user
                    (p.host.now h1 0) a q done in
                After-write-bind _ _ _ _ (λ e q. changed)
                  λ _ _.
                    After-any_audit-bind p _ _ _ _ _ _ _ _ _ _ (λ log done. After-pure _ _ changed)
                      (After-pure _ _ changed))

  resolve-Advances :
      (id user : Uuid) (h : History)
      → After (λ res h'. Advances (user ≢ nil_uuid) h h') (resolve p id user) h
  unfolding resolve
  resolve-Advances id user h =
      After-ask-bind _ _ _ _ (λ e q. still (user ≢ nil_uuid) h)
        λ a q.
          let h1 : History = read "alert by id" ∷ h in
          After-gets-bind _ _ _ (
            After-from_domain-bind _ _ _ (λ e q. still (user ≢ nil_uuid) h)
              λ done.
                let changed =
                  resolved-Advance (sessions h1) (table sessions rows h) (sessions h) id user
                    (p.host.now h1 0) a q done in
                After-write-bind _ _ _ _ (λ e q. changed)
                  λ _ _.
                    After-any_audit-bind p _ _ _ _ _ _ _ _ _ _ (λ log done. After-pure _ _ changed)
                      (After-pure _ _ changed))

  perform-Advances : (r : Request) (h : History) → Advances (IsNamed r) h (perform p r h).1
  perform-Advances (creating input) h = (create-Advances input h).at
  perform-Advances (acknowledging_request id user) h = (acknowledge-Advances id user h).at
  perform-Advances (resolving_request id user) h = (resolve-Advances id user h).at

  perform_all-Advances :
      (rs : List Request) (h : History) → Advances (All IsNamed rs) h (perform_all p rs h)
  perform_all-Advances [] h = still Unit h
  perform_all-Advances (r ∷ rs) h =
      Advance-trans (IsNamed r) (All IsNamed rs) _ _ _ (perform-Advances r h)
        (perform_all-Advances rs (perform p r h).1)

-- Over the repository of Postgres, any sequence of requests, failing or not, and whichever statements
-- fail, leaves each alert of the table consistent, if those of the table before it are. Conditions:
-- no user is `uuid.Nil`, and the database draws IDs that no row has.
pub perform_all-IsConsistent :
    (p : Ports) (sessions : History → Session) (rows : List AlertRow) (rs : List Request)
    (h : History) (id : Uuid) (b : Alert)
    → DrawsFresh sessions rows
    → All IsNamed rs
    → AllConsistent (λ i. stored sessions rows h i)
    → stored sessions rows (perform_all (over_postgres p sessions rows) rs h) id ≡ some b
    → IsConsistent b
perform_all-IsConsistent p sessions rows rs h id b fresh named all e =
    (perform_all-Advances p sessions rows fresh rs h).consistent named all id b e

-- Over the repository of Postgres, an alert that is in the table before a sequence of requests is in
-- it after them, whichever statements fail, and its stage has not gone back: no alert is lost, and
-- none is reopened. Condition: the database draws IDs that no row has.
pub perform_all-stage :
    (p : Ports) (sessions : History → Session) (rows : List AlertRow) (rs : List Request)
    (h : History) (id : Uuid) (a : Alert)
    → DrawsFresh sessions rows
    → stored sessions rows h id ≡ some a
    → (b : Alert) × (stored sessions rows (perform_all (over_postgres p sessions rows) rs h) id
        ≡ some b)
      × (stage a.status ≤ stage b.status)
perform_all-stage p sessions rows rs h id a fresh e =
    (perform_all-Advances p sessions rows fresh rs h).progress id a e
