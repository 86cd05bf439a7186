-- ===== src/Db/Workflows.antt =====
-- internal/db/workflows.sql.go: the queries that the workflow adapter and the evaluator run. A trigger
-- of the schema sets `updated_at` on every update.
use orchestrix_api.Common.{ℕ, String, Bool, Option, List, ◌∷◌, ℤ, ◌+◌, length, ◌==◌ as nat_eq}
use orchestrix_api.Fault.{Result, ok, err}
use orchestrix_api.Domain.Values.{Uuid, Raw}
use orchestrix_api.Domain.Workflow.{WorkflowDefinition}
use orchestrix_api.Db.{
  Session, Fetched, row, broken, first, select, modify, remove, page, fetch, answer, change,
}
use orchestrix_api.Db.Rows.{WorkflowRow}

pub record CreateWorkflowParams : Type 0 where
  pub tenant_id : Uuid
  pub name : String
  pub description : Option String
  pub definition : Raw WorkflowDefinition
  pub schedule : Option String
  pub status : String
  pub created_by : Option Uuid

pub record UpdateWorkflowParams : Type 0 where
  pub id : Uuid
  pub name : String
  pub description : Option String
  pub definition : Raw WorkflowDefinition
  pub schedule : Option String
  pub status : String

abbrev pub new_workflow : Session → CreateWorkflowParams → WorkflowRow
new_workflow s p = record {
  id = s.fresh;
  tenant_id = p.tenant_id;
  name = p.name;
  description = p.description;
  definition = p.definition;
  schedule = p.schedule;
  status = p.status;
  version = 1;
  created_by = p.created_by;
  created_at = s.now;
  updated_at = s.now;
}

unfoldable pub create_workflow :
    Session → CreateWorkflowParams → List WorkflowRow → Fetched WorkflowRow × List WorkflowRow
create_workflow s p rs =
    change s.fault (row (new_workflow s p), new_workflow s p ∷ rs) (λ e. broken e) rs

abbrev pub has_id : Uuid → WorkflowRow → Bool
has_id id r = nat_eq r.id id

unfoldable pub get_workflow : Session → Uuid → List WorkflowRow → Fetched WorkflowRow
unfolding select
get_workflow s id rs = fetch s.fault (first (select (has_id id) rs))

unfoldable pub list_workflows :
    (List WorkflowRow → List WorkflowRow)
    → Session
    → Uuid
    → ℤ
    → ℤ
    → List WorkflowRow
    → Result (List WorkflowRow)
unfolding select page
list_workflows arrange s tenant_id limit offset rs =
    answer s.fault (page s limit offset (arrange (select (λ r. nat_eq r.tenant_id tenant_id) rs)))

unfoldable pub count_workflows : Session → Uuid → List WorkflowRow → Result ℕ
unfolding select
count_workflows s tenant_id rs =
    answer s.fault (ok (length (select (λ r. nat_eq r.tenant_id tenant_id) rs)))

abbrev pub updated_row : Session → UpdateWorkflowParams → WorkflowRow → WorkflowRow
updated_row s p r = record r {
  name = p.name;
  description = p.description;
  definition = p.definition;
  schedule = p.schedule;
  status = p.status;
  version = r.version + 1;
  updated_at = s.now;
}

unfoldable pub update_workflow :
    Session → UpdateWorkflowParams → List WorkflowRow → Fetched WorkflowRow × List WorkflowRow
unfolding select modify
update_workflow s p rs =
    let rs' = modify (has_id p.id) (updated_row s p) rs in
    change s.fault (first (select (has_id p.id) rs'), rs') (λ e. broken e) rs

unfoldable pub delete_workflow :
    Session → Uuid → List WorkflowRow → Result (Unit {0}) × List WorkflowRow
unfolding remove
delete_workflow s id rs = change s.fault (ok tt, remove (has_id id) rs) (λ e. err e) rs
