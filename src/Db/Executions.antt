-- ===== src/Db/Executions.antt =====
-- internal/db/executions.sql.go: the queries that the execution adapter and the evaluator run.
use orchestrix_api.Common.{ℕ, String, Bool, Option, none, List, ◌∷◌, ℤ, length, ◌==◌ as nat_eq}
use orchestrix_api.Fault.{Result, ok, err}
use orchestrix_api.Domain.Values.{Uuid, Time, Raw, absent}
use orchestrix_api.Db.{
  Session, Fetched, row, broken, first, select, modify, page, fetch, answer, change,
}
use orchestrix_api.Db.Rows.{ExecutionRow}

pub record CreateExecutionParams : Type 0 where
  pub tenant_id : Uuid
  pub workflow_id : Uuid
  pub temporal_workflow_id : Option String
  pub status : String
  pub input : Raw String
  pub triggered_by : Option String

abbrev pub new_execution : Session → CreateExecutionParams → ExecutionRow
new_execution s p = record {
  id = s.fresh;
  tenant_id = p.tenant_id;
  workflow_id = p.workflow_id;
  temporal_workflow_id = p.temporal_workflow_id;
  temporal_run_id = none;
  status = p.status;
  input = p.input;
  output = absent;
  error = none;
  started_at = none;
  completed_at = none;
  created_by = none;
  created_at = s.now;
  triggered_by = p.triggered_by;
}

unfoldable pub create_execution :
    Session → CreateExecutionParams → List ExecutionRow → Fetched ExecutionRow × List ExecutionRow
create_execution s p rs =
    change s.fault (row (new_execution s p), new_execution s p ∷ rs) (λ e. broken e) rs

abbrev pub has_id : Uuid → ExecutionRow → Bool
has_id id r = nat_eq r.id id

unfoldable pub get_execution : Session → Uuid → List ExecutionRow → Fetched ExecutionRow
unfolding select
get_execution s id rs = fetch s.fault (first (select (has_id id) rs))

unfoldable pub list_executions :
    (List ExecutionRow → List ExecutionRow)
    → Session
    → Uuid
    → ℤ
    → ℤ
    → List ExecutionRow
    → Result (List ExecutionRow)
unfolding select page
list_executions arrange s tenant_id limit offset rs =
    answer s.fault (page s limit offset (arrange (select (λ r. nat_eq r.tenant_id tenant_id) rs)))

unfoldable pub list_executions_by_workflow :
    (List ExecutionRow → List ExecutionRow)
    → Session
    → Uuid
    → ℤ
    → ℤ
    → List ExecutionRow
    → Result (List ExecutionRow)
unfolding select page
list_executions_by_workflow arrange s workflow_id limit offset rs =
    answer s.fault
      (page s limit offset (arrange (select (λ r. nat_eq r.workflow_id workflow_id) rs)))

unfoldable pub count_executions : Session → Uuid → List ExecutionRow → Result ℕ
unfolding select
count_executions s tenant_id rs =
    answer s.fault (ok (length (select (λ r. nat_eq r.tenant_id tenant_id) rs)))

unfoldable pub update_execution_status :
    Session
    → Uuid
    → String
    → Option String
    → List ExecutionRow
    → Result (Unit {0}) × List ExecutionRow
unfolding modify
update_execution_status s id status message rs =
    change s.fault
      (ok tt, modify (has_id id) (λ r. record r { status = status; error = message }) rs)
      (λ e. err e) rs

unfoldable pub update_execution_run_id :
    Session
    → Uuid
    → Option String
    → String
    → Option Time
    → List ExecutionRow
    → Result (Unit {0}) × List ExecutionRow
unfolding modify
update_execution_run_id s id run_id status started rs =
    change s.fault
      (
        ok tt,
        modify (has_id id)
            (λ r. record r { temporal_run_id = run_id; status = status; started_at = started }) rs,
      )
      (λ e. err e) rs

unfoldable pub update_execution_temporal_ids :
    Session
    → Uuid
    → Option String
    → Option String
    → List ExecutionRow
    → Result (Unit {0}) × List ExecutionRow
unfolding modify
update_execution_temporal_ids s id workflow_id run_id rs =
    change s.fault
      (
        ok tt,
        modify (has_id id)
            (λ r. record r { temporal_workflow_id = workflow_id; temporal_run_id = run_id }) rs,
      )
      (λ e. err e) rs
