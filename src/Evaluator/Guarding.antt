-- ===== src/Evaluator/Guarding.antt =====
-- What a metric can start: workflows of its own tenant, each with a row for its execution.
use orchestrix_api.Common.{
  String, ◌≡◌, ◌≢◌, refl, ap, ◌∙◌, Bool, true, false, Option, none, some, List, [], ◌∷◌, All,
  ==_iff, Bool-cases, inl, inr, if_elim, ◌==◌ as nat_eq,
}
use orchestrix_api.Fault.{Error, Result, ok, err}
use orchestrix_api.Domain.Values.{Uuid, Time}
use orchestrix_api.Engine.Definition.{Fields}
use orchestrix_api.Db.{Session, Fetched, row, no_rows, broken, first, select, modify, fetch, change}
use orchestrix_api.Db.Rows.{ExecutionRow, WorkflowRow, AlertRow, AlertRuleRow}
use orchestrix_api.Db.Executions.{
  CreateExecutionParams, create_execution, update_execution_status, update_execution_run_id,
}
use orchestrix_api.Db.Workflows.{get_workflow, has_id}
use orchestrix_api.Evaluator.Deciding.{MetricData}
use orchestrix_api.Evaluator.Rendering.{AlertTemplateData}
use orchestrix_api.Evaluator.Triggering.{
  Start, World, Environment, record_start, start_workflow, start_of, after_execution, with_workflow,
  trigger_workflow, maybe_workflow, after_alert, trigger_alert, act_on, evaluate_rules, with_rules,
  evaluate_metric, read,
}
use orchestrix_api.Db.Rules.{get_alert_rules_for_metric}

-- Some element of a list has a property.
pub data Any {A : Type 0} (P : A → Type 0) : List A → Type 0 where
  here : {x : A} {xs : List A} → P x → Any P (x ∷ xs)
  there : {x : A} {xs : List A} → Any P xs → Any P (x ∷ xs)

-- An execution has a row; a workflow has a row, of the tenant.
abbrev pub IsKnown : Uuid → List ExecutionRow → Type 0
IsKnown id rs = Any (λ r. r.id ≡ id) rs

abbrev pub IsOwned : Uuid → Uuid → List WorkflowRow → Type 0
IsOwned tenant_id id rs = Any (λ r. (r.id ≡ id) × (r.tenant_id ≡ tenant_id)) rs

-- Every workflow that was started is the tenant's, and its execution has a row.
abbrev pub IsAccounted : Uuid → World → Type 0
IsAccounted tenant_id w =
    All (λ st. IsOwned tenant_id st.workflow_id w.workflows × IsKnown st.execution_id w.executions)
      w.starts

broken≢row : {A : Type 0} {e : Error} {x : A} → broken e ≢ row x
broken≢row q = cc

no_rows≢row : {A : Type 0} {x : A} → no_rows ≢ row x
no_rows≢row q = cc

modify-IsKnown :
    (p : ExecutionRow → Bool) (f : ExecutionRow → ExecutionRow)
    → ((r : ExecutionRow) → (f r).id ≡ r.id)
    → (id : Uuid) (rs : List ExecutionRow) → IsKnown id rs
    → IsKnown id (modify p f rs)
unfolding modify
modify-IsKnown p f keep id [] m = elim m [ ]
modify-IsKnown p f keep id (r ∷ rs) (here q) =
    here (if_elim (λ x. x.id ≡ id) (p r) (f r) r (λ c. keep r ∙ q) λ c. q)
modify-IsKnown p f keep id (r ∷ rs) (there m) = there (modify-IsKnown p f keep id rs m)

-- A change of the executions that loses none.
abbrev Keeps : List ExecutionRow → List ExecutionRow → Type 0
Keeps rs rs' = (id : Uuid) → IsKnown id rs → IsKnown id rs'

change-Keeps :
    {B : Type 0} (fault : Option Error) (b : B) (failed : Error → B) (rs rs' : List ExecutionRow)
    → Keeps rs rs'
    → Keeps rs (change fault (b, rs') failed rs).1
change-Keeps none b failed rs rs' k = k
change-Keeps (some e) b failed rs rs' k = λ id m. m

record_status-Keeps :
    (s : Session) (rs : List ExecutionRow) (id : Uuid) (status : String) (message : Option String)
    → Keeps rs (update_execution_status s id status message rs).1
unfolding update_execution_status
record_status-Keeps s rs id status message =
    change-Keeps s.fault _ _ rs _ λ k m. modify-IsKnown _ _ (λ r. refl) k rs m

record_run-Keeps :
    (s : Session) (rs : List ExecutionRow) (id : Uuid) (run : Option String) (status : String)
    (started : Option Time)
    → Keeps rs (update_execution_run_id s id run status started rs).1
unfolding update_execution_run_id
record_run-Keeps s rs id run status started =
    change-Keeps s.fault _ _ rs _ λ k m. modify-IsKnown _ _ (λ r. refl) k rs m

create_execution-Keeps :
    (s : Session) (p : CreateExecutionParams) (rs : List ExecutionRow)
    → Keeps rs (create_execution s p rs).1
unfolding create_execution
create_execution-Keeps s p rs = change-Keeps s.fault _ _ rs _ λ k m. there m

-- An INSERT of a row.
abbrev inserted :
    Option Error → ExecutionRow → List ExecutionRow → Fetched ExecutionRow × List ExecutionRow
inserted fault new rs = change fault (row new, new ∷ rs) (λ e. broken e) rs

created-IsKnown :
    (fault : Option Error) (new : ExecutionRow) (rs : List ExecutionRow) (x : ExecutionRow)
    → (inserted fault new rs).0 ≡ row x
    → IsKnown x.id (inserted fault new rs).1
created-IsKnown none new rs x q = let e : new ≡ x = cc q in here (ap (λ r. r.id) e)
created-IsKnown (some e) new rs x q = absurd (broken≢row q)

create_execution-IsKnown :
    (s : Session) (p : CreateExecutionParams) (rs : List ExecutionRow) (x : ExecutionRow)
    → (create_execution s p rs).0 ≡ row x
    → IsKnown x.id (create_execution s p rs).1
unfolding create_execution
create_execution-IsKnown s p rs x q = created-IsKnown s.fault _ rs x q

first-IsOwned :
    (id tenant_id : Uuid) (rs : List WorkflowRow) (x : WorkflowRow)
    → first (select (has_id id) rs) ≡ row x
    → x.tenant_id ≡ tenant_id
    → IsOwned tenant_id id rs
unfolding select
first-IsOwned id tenant_id [] x q same = absurd (no_rows≢row q)
first-IsOwned id tenant_id (r ∷ rs) x q same = elim (Bool-cases (has_id id r)) [
  | inl c ↦
      (let e : r ≡ x = cc (rw c at q) in
        here ((==_iff r.id id).0 c, ap (λ y. y.tenant_id) e ∙ same))
  | inr c ↦ there (first-IsOwned id tenant_id rs x (rw c at q) same)
]

fetch-row :
    {A : Type 0} (fault : Option Error) (f : Fetched A) (x : A) → fetch fault f ≡ row x → f ≡ row x
fetch-row none f x q = q
fetch-row (some e) f x q = absurd (broken≢row q)

get_workflow-IsOwned :
    (s : Session) (id tenant_id : Uuid) (rs : List WorkflowRow) (x : WorkflowRow)
    → get_workflow s id rs ≡ row x
    → x.tenant_id ≡ tenant_id
    → IsOwned tenant_id id rs
unfolding get_workflow
get_workflow-IsOwned s id tenant_id rs x q same =
    first-IsOwned id tenant_id rs x (fetch-row s.fault _ x q) same

All-weaken :
    {A : Type 0} {P Q : A → Type 0} → ((a : A) → P a → Q a) → (xs : List A) → All P xs → All Q xs
All-weaken h [] all = tt
All-weaken h (x ∷ xs) (p, all) = (h x p, All-weaken h xs all)

-- The executions may grow.
grown-IsAccounted :
    (tenant_id : Uuid) (w : World) (rs : List ExecutionRow)
    → Keeps w.executions rs
    → IsAccounted tenant_id w
    → IsAccounted tenant_id (record w { executions = rs })
grown-IsAccounted tenant_id w rs k all =
    All-weaken (λ st p. (p.0, k st.execution_id p.1)) w.starts all

module _ (e : Environment) (tenant_id : Uuid) where
  record_start-IsAccounted :
      (id : Uuid) (r : Result String) (w : World)
      → IsAccounted tenant_id w
      → IsAccounted tenant_id (record_start e id r w).1
  unfolding record_start
  record_start-IsAccounted id (err x) w all =
      grown-IsAccounted tenant_id w _ (record_status-Keeps (e.db w.statements) w.executions id _ _)
        all
  record_start-IsAccounted id (ok run) w all =
      grown-IsAccounted tenant_id w _ (record_run-Keeps (e.db w.statements) w.executions id _ _ _)
        all

  start_workflow-IsAccounted :
      (st : Start) (w : World)
      → IsOwned tenant_id st.workflow_id w.workflows
      → IsKnown st.execution_id w.executions
      → IsAccounted tenant_id w
      → IsAccounted tenant_id (start_workflow e st w).1
  unfolding start_workflow
  start_workflow-IsAccounted st w owned known all =
      record_start-IsAccounted st.execution_id (e.start w.starts st)
        (record w { starts = st ∷ w.starts }) ((owned, known), all)

  after_execution-IsAccounted :
      (alert id : Uuid) (workflow : WorkflowRow) (input : Fields) (f : Fetched ExecutionRow)
      (w : World)
      → IsOwned tenant_id id w.workflows
      → ((x : ExecutionRow) → f ≡ row x → IsKnown x.id w.executions)
      → IsAccounted tenant_id w
      → IsAccounted tenant_id (after_execution e alert id workflow input f w).1
  unfolding after_execution
  after_execution-IsAccounted alert id workflow input (broken x) w owned known all = all
  after_execution-IsAccounted alert id workflow input no_rows w owned known all = all
  after_execution-IsAccounted alert id workflow input (row x) w owned known all =
      start_workflow-IsAccounted (start_of e alert id workflow x.id input) _ owned (known x refl)
        all

  with_workflow-IsAccounted :
      (rule : AlertRuleRow) (id alert : Uuid) (m : MetricData) (d : AlertTemplateData)
      (f : Fetched WorkflowRow) (w : World)
      → ((x : WorkflowRow) → f ≡ row x → x.tenant_id ≡ tenant_id → IsOwned tenant_id id w.workflows)
      → IsAccounted tenant_id w
      → IsAccounted tenant_id (with_workflow e tenant_id rule id alert m d f w).1
  unfolding with_workflow
  with_workflow-IsAccounted rule id alert m d (broken x) w owned all = all
  with_workflow-IsAccounted rule id alert m d no_rows w owned all = all
  with_workflow-IsAccounted rule id alert m d (row x) w owned all =
      if_elim {A = Result (Unit {0}) × World} (λ y. IsAccounted tenant_id y.1)
        (nat_eq x.tenant_id tenant_id) _ _
        (λ c.
          after_execution-IsAccounted alert id x _ _ _
            (owned x refl ((==_iff x.tenant_id tenant_id).0 c))
            (λ y q. create_execution-IsKnown (e.db w.statements) _ w.executions y q)
            (grown-IsAccounted tenant_id w _
              (create_execution-Keeps (e.db w.statements) _ w.executions) all))
        λ c. all

  trigger_workflow-IsAccounted :
      (rule : AlertRuleRow) (id alert : Uuid) (m : MetricData) (d : AlertTemplateData) (w : World)
      → IsAccounted tenant_id w
      → IsAccounted tenant_id (trigger_workflow e tenant_id rule id alert m d w).1
  unfolding trigger_workflow
  trigger_workflow-IsAccounted rule id alert m d w all =
      with_workflow-IsAccounted rule id alert m d _ _
        (λ x q same. get_workflow-IsOwned (e.db w.statements) id tenant_id w.workflows x q same) all

  maybe_workflow-IsAccounted :
      (id : Option Uuid) (rule : AlertRuleRow) (alert : Uuid) (m : MetricData) (w : World)
      → IsAccounted tenant_id w
      → IsAccounted tenant_id (maybe_workflow e id tenant_id rule alert m w)
  unfolding maybe_workflow
  maybe_workflow-IsAccounted none rule alert m w all = all
  maybe_workflow-IsAccounted (some id) rule alert m w all =
      trigger_workflow-IsAccounted rule id alert m _ w all

  after_alert-IsAccounted :
      (rule : AlertRuleRow) (m : MetricData) (f : Fetched AlertRow) (w : World)
      → IsAccounted tenant_id w
      → IsAccounted tenant_id (after_alert e tenant_id rule m f w).1
  unfolding after_alert
  after_alert-IsAccounted rule m (broken x) w all = all
  after_alert-IsAccounted rule m no_rows w all = all
  after_alert-IsAccounted rule m (row alert) w all =
      maybe_workflow-IsAccounted rule.trigger_workflow_id rule alert.id m _ all

  act_on-IsAccounted :
      (rule : AlertRuleRow) (m : MetricData) (r : Result Bool) (w : World)
      → IsAccounted tenant_id w
      → IsAccounted tenant_id (act_on e tenant_id rule m r w)
  unfolding trigger_alert
  act_on-IsAccounted rule m (err x) w all = all
  act_on-IsAccounted rule m (ok false) w all = all
  act_on-IsAccounted rule m (ok true) w all = after_alert-IsAccounted rule m _ _ all

  evaluate_rules-IsAccounted :
      (m : MetricData) (rules : List AlertRuleRow) (w : World)
      → IsAccounted tenant_id w
      → IsAccounted tenant_id (evaluate_rules e tenant_id m rules w)
  unfolding evaluate_rules
  evaluate_rules-IsAccounted m [] w all = all
  evaluate_rules-IsAccounted m (rule ∷ rules) w all =
      evaluate_rules-IsAccounted m rules _ (act_on-IsAccounted rule m _ w all)

  with_rules-IsAccounted :
      (m : MetricData) (r : Result (List AlertRuleRow)) (w : World)
      → IsAccounted tenant_id w
      → IsAccounted tenant_id (with_rules e tenant_id m r w).1
  with_rules-IsAccounted m (err x) w all = all
  with_rules-IsAccounted m (ok rules) w all = evaluate_rules-IsAccounted m rules w all

-- Whatever the database and Temporal answer, the evaluation of a metric of a tenant starts only
-- workflows that have a row of that tenant, each after its execution has got a row, which stays.
pub evaluate_metric-IsAccounted :
    (e : Environment) (tenant_id : Uuid) (m : MetricData) (w : World)
    → IsAccounted tenant_id w
    → IsAccounted tenant_id (evaluate_metric e tenant_id m w).1
unfolding evaluate_metric
evaluate_metric-IsAccounted e tenant_id m w all =
    with_rules-IsAccounted e tenant_id m
      (get_alert_rules_for_metric e.metric_name_of (e.db w.statements) tenant_id m.name w.rules)
      (read e w) all
