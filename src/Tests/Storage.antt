-- ===== src/Tests/Storage.antt =====
-- The repositories' theorems on small tables.
use orchestrix_api.Common.{
  suc, ◌≡◌, refl, true, none, some, List, [], ◌∷◌, map, pos, page_offset, arith,
}
use orchestrix_api.Fault.{ok, err, sentinel, other}
use orchestrix_api.Domain.Errors.{alert_rule_not_found, execution_not_found}
use orchestrix_api.Domain.Values.{Time, absent, parsed, at_rank}
use orchestrix_api.Domain.Alert.{Alert}
use orchestrix_api.Domain.Execution.{Execution}
use orchestrix_api.Domain.Workflow.{Workflow}
use orchestrix_api.Domain.AlertRule.{AlertRule}
use orchestrix_api.Db.{Session, select, take}
use orchestrix_api.Db.Rows.{AlertRow, AlertRuleRow}
use orchestrix_api.Postgres.Alerts as Alerts
use orchestrix_api.Postgres.Executions as Executions
use orchestrix_api.Postgres.Workflows as Workflows
use orchestrix_api.Postgres.Rules as Rules
use orchestrix_api.Postgres.Pages.{
  Tables, RowOrder, Orders, ListsOf, of_tenant, find_by_tenant-ListsOf, find_by_tenant_pages,
}
use orchestrix_api.Postgres.Joining.{joined}
use orchestrix_api.Postgres.Order.{IsNewestFirst, HasDistinctTimes, AreNewestFirst}
use mathlib.Core.List.{Permᴰ}
use mathlib.Core.List.Permᴰ
use orchestrix_api.Postgres.Missing.{find_by_id-not_found, save-update}
use orchestrix_api.Tests.Fixtures.{an_execution}

abbrev pub a_session : Session
a_session = record { fault = none; fresh = 50; now = 100; negative_range = other "negative" }

abbrev an_alert_row : AlertRow
an_alert_row = record {
  id = 5;
  tenant_id = 1;
  workflow_id = none;
  execution_id = none;
  severity = "high";
  title = "cpu";
  message = none;
  status = "triggered";
  acknowledged_at = none;
  acknowledged_by = none;
  resolved_at = none;
  resolved_by = none;
  created_at = 30;
  triggered_by_rule_id = some 9;
  triggered_workflow_execution_id = none;
  source = none;
  metadata = absent;
}

abbrev some_alerts : List AlertRow
some_alerts =
    an_alert_row
    ∷ record an_alert_row { id = 6; tenant_id = 2 }
    ∷ record an_alert_row { id = 7 }
    ∷ []

abbrev pub a_rule_row : AlertRuleRow
a_rule_row = record {
  id = 9;
  tenant_id = 1;
  name = "cpu";
  description = none;
  enabled = true;
  condition_type = "metric_threshold";
  condition_config =
      parsed (record { metric_name = "cpu"; operator = "gt"; threshold = at_rank 90 });
  severity = "high";
  alert_title_template = "cpu";
  alert_message_template = none;
  trigger_workflow_id = some 7;
  trigger_input_template = absent;
  cooldown_seconds = pos 60;
  last_triggered_at = none;
  created_by = none;
  created_at = 5;
  updated_at = 5;
}

abbrev some_tables : Tables
some_tables = record {
  alerts = some_alerts;
  executions = [];
  workflows = [];
  rules = a_rule_row ∷ [];
}

abbrev as_stored : RowOrder
as_stored = record {
  alerts = λ rs. rs;
  executions = λ rs. rs;
  workflows = λ rs. rs;
  rules = λ rs. rs;
}

as_stored-Orders : {A : Type 0} → Orders (λ (rs : List A). rs)
as_stored-Orders p rs all = all

find_by_tenant-ListsOf_example :
    ListsOf
      (λ (a : Alert). a.tenant_id)
      1
      (pos 2)
      (Alerts.find_by_tenant (λ rs. rs) a_session 1 (pos 2) (pos 0) some_alerts)
    × ListsOf
        (λ (e : Execution). e.tenant_id)
        1
        (pos 2)
        (Executions.find_by_tenant (λ rs. rs) a_session 1 (pos 2) (pos 0) [])
    × ListsOf
        (λ (w : Workflow). w.tenant_id)
        1
        (pos 2)
        (Workflows.find_by_tenant (λ rs. rs) a_session 1 (pos 2) (pos 0) [])
    × ListsOf
        (λ (r : AlertRule). r.tenant_id)
        1
        (pos 2)
        (Rules.find_by_tenant (λ rs. rs) a_session 1 (pos 2) (pos 0) (a_rule_row ∷ []))
find_by_tenant-ListsOf_example =
    find_by_tenant-ListsOf as_stored some_tables a_session 1 (pos 2) (pos 0) as_stored-Orders
      as_stored-Orders as_stored-Orders as_stored-Orders

-- The newer alert of the tenant stands first.
abbrev paged_tables : Tables
paged_tables = record some_tables {
  alerts =
      record an_alert_row { id = 7; created_at = 40 }
      ∷ record an_alert_row { id = 6; tenant_id = 2 }
      ∷ an_alert_row
      ∷ [];
}

abbrev newest : Tables
newest = record some_tables {
  alerts = record an_alert_row { id = 7; created_at = 40 } ∷ an_alert_row ∷ [];
}

alerts-AreNewestFirst :
    AreNewestFirst (λ r. r.created_at) (λ i rs. rs) (of_tenant 1 paged_tables).alerts newest.alerts
unfolding select
alerts-AreNewestFirst = record { distinct = apart; whole = in_order; paged = λ i. in_order }
  where
    apart : HasDistinctTimes (λ (r : AlertRow). r.created_at) newest.alerts
    apart = (((λ q. absurd (omega (arith, q))), tt), (tt, tt))

    in_order : IsNewestFirst (λ r. r.created_at) newest.alerts newest.alerts
    in_order = record {
      permuted = Permᴰ.refl newest.alerts;
      descending = ((omega arith, tt), (tt, tt));
    }

none-AreNewestFirst :
    {A : Type 0} (created_at : A → Time) → AreNewestFirst created_at (λ i rs. rs) [] []
none-AreNewestFirst created_at = record {
  distinct = tt;
  whole = record { permuted = Permᴰ.nil; descending = tt };
  paged = λ i. record { permuted = Permᴰ.nil; descending = tt };
}

rules-AreNewestFirst :
    AreNewestFirst (λ r. r.created_at) (λ i rs. rs) (of_tenant 1 paged_tables).rules newest.rules
unfolding select
rules-AreNewestFirst = record {
  distinct = (tt, tt);
  whole = record { permuted = Permᴰ.refl newest.rules; descending = (tt, tt) };
  paged = λ i. record { permuted = Permᴰ.refl newest.rules; descending = (tt, tt) };
}

find_by_tenant_pages_example :
    (joined
        (λ i.
          Alerts.find_by_tenant
            (λ rs. rs)
            a_session
            1
            (pos 1)
            (page_offset (pos (suc i)) (pos 1))
            paged_tables.alerts)
        2
      ≡ ok (map Alerts.to_domain (take 2 newest.alerts)))
    × (joined
          (λ i.
            Executions.find_by_tenant
              (λ rs. rs)
              a_session
              1
              (pos 1)
              (page_offset (pos (suc i)) (pos 1))
              paged_tables.executions)
          2
        ≡ ok (map Executions.to_domain (take 2 newest.executions)))
    × (joined
          (λ i.
            Workflows.find_by_tenant
              (λ rs. rs)
              a_session
              1
              (pos 1)
              (page_offset (pos (suc i)) (pos 1))
              paged_tables.workflows)
          2
        ≡ ok (map Workflows.to_domain (take 2 newest.workflows)))
    × (joined
          (λ i.
            Rules.find_by_tenant
              (λ rs. rs)
              a_session
              1
              (pos 1)
              (page_offset (pos (suc i)) (pos 1))
              paged_tables.rules)
          2
        ≡ ok (map Rules.to_domain (take 2 newest.rules)))
unfolding select
find_by_tenant_pages_example =
    find_by_tenant_pages (λ i. as_stored) (λ i. a_session) paged_tables newest 1 1 2 (λ i. refl)
      alerts-AreNewestFirst (none-AreNewestFirst _) (none-AreNewestFirst _) rules-AreNewestFirst
      (omega arith) (omega arith) (omega arith)

find_by_id-not_found_example :
    (Rules.find_by_id (λ rs. rs) a_session 9 (a_rule_row ∷ [])
      ≡ err (sentinel alert_rule_not_found))
    × (Rules.delete (λ rs. rs) a_session a_session 9 (a_rule_row ∷ [])
        ≡ (err (sentinel alert_rule_not_found), a_rule_row ∷ []))
find_by_id-not_found_example =
    find_by_id-not_found (λ rs. rs) a_session 9 (a_rule_row ∷ []) a_session refl refl
      (ground arith, tt)

save-update_example :
    (Executions.update a_session an_execution (Executions.save a_session an_execution []).1
      ≡ (ok tt, (Executions.save a_session an_execution []).1))
    × (Executions.find_by_id a_session 8 (Executions.save a_session an_execution []).1
        ≡ err (sentinel execution_not_found))
save-update_example =
    save-update a_session a_session a_session an_execution an_execution [] refl refl refl
      (ground arith) refl tt
