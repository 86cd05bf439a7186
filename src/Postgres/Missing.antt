-- ===== src/Postgres/Missing.antt =====
-- What the repositories do not find: a rule by its ID alone, and an execution by the ID that the
-- service gave it.
use orchestrix_api.Common.{
  ◌≡◌, ap, sym, subst, String, ◌∙◌, ◌≢◌, false, Option, none, List, [], ◌∷◌, All, arith, ==_iff,
  pos,
}
use orchestrix_api.Fault.{ok, err, sentinel}
use orchestrix_api.Domain.Errors.{alert_rule_not_found, execution_not_found}
use orchestrix_api.Domain.Values.{Uuid, nil_uuid}
use orchestrix_api.Domain.Execution.{Execution}
use orchestrix_api.Db.{Session, select, page, answer}
use orchestrix_api.Db.Rows.{ExecutionRow, AlertRuleRow}
use orchestrix_api.Db.Executions.{
  new_execution, create_execution, update_execution_status, get_execution,
}
use orchestrix_api.Db.Executions as Queries
use orchestrix_api.Db.Rules.{list_alert_rules, of_tenant}
use orchestrix_api.Db.Reading.{modify-none, select-none, page-small, take-nil}
use orchestrix_api.Postgres.Executions as Executions
use orchestrix_api.Postgres.Rules as Rules

-- Every rule has a tenant: the schema wants one that stands among the tenants.
abbrev pub HaveTenants : List AlertRuleRow → Type 0
HaveTenants rs = All (λ r. r.tenant_id ≢ nil_uuid) rs

foreign : (rs : List AlertRuleRow) → HaveTenants rs → All (λ r. of_tenant nil_uuid r ≡ false) rs
foreign [] all = tt
foreign (r ∷ rs) (q, all) = (ground (arith, ==_iff r.tenant_id nil_uuid), foreign rs all)

module _ (arrange : List AlertRuleRow → List AlertRuleRow) (s : Session) (id : Uuid)
    (rs : List AlertRuleRow) where
  none_listed :
      s.fault ≡ none
      → arrange [] ≡ []
      → HaveTenants rs
      → list_alert_rules arrange s nil_uuid (pos 1000) (pos 0) rs ≡ ok []
  unfolding list_alert_rules
  none_listed up order have =
      ap (λ x. answer x (page s (pos 1000) (pos 0) (arrange (select (of_tenant nil_uuid) rs)))) up
      ∙ ap (λ xs. page s (pos 1000) (pos 0) (arrange xs))
          (select-none (of_tenant nil_uuid) rs (foreign rs have))
      ∙ ap (λ xs. page s (pos 1000) (pos 0) xs) order
      ∙ page-small s 1000 0 [] (omega arith) (omega arith)
      ∙ ap (λ xs. ok xs) (take-nil 1000)

  -- FindByID of the alert rules finds no rule, and so Delete deletes none. Conditions: every rule has a
  -- tenant other than `uuid.Nil`, no statement fails, and the database puts nothing into an empty
  -- order.
  pub find_by_id-not_found :
      (s' : Session)
      → s.fault ≡ none
      → arrange [] ≡ []
      → HaveTenants rs
      → (Rules.find_by_id arrange s id rs ≡ err (sentinel alert_rule_not_found))
        × (Rules.delete arrange s s' id rs ≡ (err (sentinel alert_rule_not_found), rs))
  unfolding Rules.find_by_id Rules.delete Rules.delete_found Rules.with_id_of
  find_by_id-not_found s' up order have =
      let e = ap (λ r. Rules.with_id_of id r) (none_listed up order have) in
      (e, ap (λ r. Rules.delete_found s' id r rs) e)

-- No row has the ID.
abbrev pub Unknown : Uuid → List ExecutionRow → Type 0
Unknown id rs = All (λ r. r.id ≢ id) rs

other_ids :
    (id : Uuid) (rs : List ExecutionRow) → Unknown id rs → All (λ r. Queries.has_id id r ≡ false) rs
other_ids id [] all = tt
other_ids id (r ∷ rs) (q, all) = (ground (arith, ==_iff r.id id), other_ids id rs all)

module _ (s : Session) (id : Uuid) (rs : List ExecutionRow) (up : s.fault ≡ none)
    (unknown : Unknown id rs) where
  update-unknown :
      (status : String) (message : Option String)
      → update_execution_status s id status message rs ≡ (ok tt, rs)
  unfolding update_execution_status
  update-unknown status message =
      simp (up, modify-none (Queries.has_id id) _ rs (other_ids id rs unknown))

  find_by_id-unknown : Executions.find_by_id s id rs ≡ err (sentinel execution_not_found)
  unfolding Executions.find_by_id get_execution
  find_by_id-unknown = simp (up, select-none (Queries.has_id id) rs (other_ids id rs unknown))

module _ (s s' s'' : Session) (e e' : Execution) (rs : List ExecutionRow) where
  saved_rows :
      s.fault ≡ none
      → (Executions.save s e rs).1 ≡ new_execution s (Executions.create_params e) ∷ rs
  unfolding Executions.save create_execution
  saved_rows up = simp up

  -- A saved execution gets an ID of the database, so the entity's is unknown: a later Update with the
  -- entity succeeds and changes no row, and FindByID with the entity's ID finds nothing. Conditions:
  -- no statement fails, no row has the ID of the entity, and the database does not come upon it.
  pub save-update :
      s.fault ≡ none
      → s'.fault ≡ none
      → s''.fault ≡ none
      → s.fresh ≢ e.id
      → e'.id ≡ e.id
      → Unknown e.id rs
      → (Executions.update s' e' (Executions.save s e rs).1 ≡ (ok tt, (Executions.save s e rs).1))
        × (Executions.find_by_id s'' e.id (Executions.save s e rs).1
            ≡ err (sentinel execution_not_found))
  unfolding Executions.update
  save-update up up' up'' other same unknown =
      let after : Unknown e.id (Executions.save s e rs).1 =
        subst (λ xs. Unknown e.id xs) (sym (saved_rows up)) (other, unknown) in
      (
        update-unknown s' e'.id _ up'
            (subst (λ (k : Uuid). Unknown k (Executions.save s e rs).1) (sym same) after) _ _,
        find_by_id-unknown s'' e.id _ up'' after,
      )
