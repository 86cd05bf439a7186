-- ===== src/Evaluator/Raising.antt =====
-- Which alerts the evaluation of a metric raises, when no statement fails.
use orchestrix_api.Common.{
  ℕ, String, ◌≡◌, refl, ap, ◌+◌, ◌∙◌, Bool, true, false, Option, none, some, List, [], ◌∷◌, map,
  if_elim, if◌then◌else◌, ◌==◌ as nat_eq,
}
use orchestrix_api.Fault.{Error, Result, ok, err}
use orchestrix_api.Domain.Values.{Uuid}
use orchestrix_api.Engine.Definition.{Fields}
use orchestrix_api.Db.{Session, Fetched, row, no_rows, broken, select, modify, change, answer}
use orchestrix_api.Db.Rows.{ExecutionRow, WorkflowRow, AlertRow, AlertRuleRow}
use orchestrix_api.Db.Alerts.{
  has_id, CreateAlertParams, create_alert, new_alert, update_alert_triggered_execution,
}
use orchestrix_api.Db.Rules.{get_alert_rules_for_metric, is_for_metric}
use orchestrix_api.Evaluator.Deciding.{MetricData, evaluate_rule}
use orchestrix_api.Evaluator.Rendering.{AlertTemplateData}
use orchestrix_api.Evaluator.Triggering.{
  World, Environment, record_start, start_workflow, after_execution, with_workflow,
  trigger_workflow, maybe_workflow, after_alert, alert_params, trigger_alert, act_on,
  evaluate_rules, evaluate_metric, with_rules, read,
}

-- The tenant of an alert and the rule that raised it.
pub record Origin : Type 0 where
  pub tenant_id : Uuid
  pub rule : Option Uuid

abbrev pub origin : AlertRow → Origin
origin a = record { tenant_id = a.tenant_id; rule = a.triggered_by_rule_id }

abbrev pub triggers : Result Bool → Bool
triggers (ok b) = b
triggers (err e) = false

-- The origins after a list of rules: a new one for each rule that the metric triggers, in their order.
abbrev pub raised : Environment → Uuid → MetricData → List AlertRuleRow → List Origin → List Origin
raised e tenant_id m [] os = os
raised e tenant_id m (r ∷ rs) os = raised e tenant_id m rs (
    if triggers (evaluate_rule e.unmarshal_error r m)
    then record { tenant_id = tenant_id; rule = some r.id } ∷ os
    else os)

modify-origin :
    (p : AlertRow → Bool) (f : AlertRow → AlertRow)
    → ((a : AlertRow) → origin (f a) ≡ origin a)
    → (rs : List AlertRow) → map origin (modify p f rs) ≡ map origin rs
unfolding modify
modify-origin p f keep [] = refl
modify-origin p f keep (r ∷ rs) =
    if_elim (λ x. origin x ∷ map origin (modify p f rs) ≡ origin r ∷ map origin (modify p f rs))
      (p r) (f r) r (λ c. ap (λ o. o ∷ map origin (modify p f rs)) (keep r)) (λ c. refl)
    ∙ ap (λ os. origin r ∷ os) (modify-origin p f keep rs)

change-origin :
    (fault : Option Error) (rs rs' : List AlertRow)
    → map origin rs' ≡ map origin rs
    → map origin (change {B = Result (Unit {0})} fault (ok tt, rs') (λ x. err x) rs).1
      ≡ map origin rs
change-origin none rs rs' q = q
change-origin (some e) rs rs' q = refl

linked-origin :
    (s : Session) (id : Uuid) (execution : Option Uuid) (rs : List AlertRow)
    → map origin (update_alert_triggered_execution s id execution rs).1 ≡ map origin rs
unfolding update_alert_triggered_execution
linked-origin s id execution rs = change-origin s.fault rs _ (
    modify-origin (has_id id) (λ r. record r { triggered_workflow_execution_id = execution })
      (λ a. refl) rs)

created_alert :
    (s : Session) (p : CreateAlertParams) (rs : List AlertRow)
    → s.fault ≡ none
    → create_alert s p rs ≡ (row (new_alert s p), new_alert s p ∷ rs)
unfolding create_alert
created_alert s p rs up = simp up

module _ (e : Environment) (tenant_id : Uuid) where
  record_start-origin :
      (id : Uuid) (r : Result String) (w : World) → (record_start e id r w).1.alerts ≡ w.alerts
  unfolding record_start
  record_start-origin id (err x) w = refl
  record_start-origin id (ok run) w = refl

  after_execution-origin :
      (alert id : Uuid) (workflow : WorkflowRow) (input : Fields) (f : Fetched ExecutionRow)
      (w : World)
      → map origin (after_execution e alert id workflow input f w).1.alerts ≡ map origin w.alerts
  unfolding after_execution start_workflow
  after_execution-origin alert id workflow input (broken x) w = refl
  after_execution-origin alert id workflow input no_rows w = refl
  after_execution-origin alert id workflow input (row x) w =
      ap (map origin) (record_start-origin x.id _ _)
      ∙ linked-origin (e.db w.statements) alert (some x.id) w.alerts

  with_workflow-origin :
      (rule : AlertRuleRow) (id alert : Uuid) (m : MetricData) (d : AlertTemplateData)
      (f : Fetched WorkflowRow) (w : World)
      → map origin (with_workflow e tenant_id rule id alert m d f w).1.alerts ≡ map origin w.alerts
  unfolding with_workflow
  with_workflow-origin rule id alert m d (broken x) w = refl
  with_workflow-origin rule id alert m d no_rows w = refl
  with_workflow-origin rule id alert m d (row x) w =
      if_elim {A = Result (Unit {0}) × World} (λ y. map origin y.1.alerts ≡ map origin w.alerts)
        (nat_eq x.tenant_id tenant_id) _ _ (λ c. after_execution-origin alert id x _ _ _) λ c. refl

  maybe_workflow-origin :
      (id : Option Uuid) (rule : AlertRuleRow) (alert : Uuid) (m : MetricData) (w : World)
      → map origin (maybe_workflow e id tenant_id rule alert m w).alerts ≡ map origin w.alerts
  unfolding maybe_workflow trigger_workflow
  maybe_workflow-origin none rule alert m w = refl
  maybe_workflow-origin (some id) rule alert m w = with_workflow-origin rule id alert m _ _ _

  -- An alert for the rule, whatever comes of its workflow.
  trigger_alert-origin :
      (rule : AlertRuleRow) (m : MetricData) (w : World)
      → (e.db w.statements).fault ≡ none
      → map origin (trigger_alert e tenant_id rule m w).1.alerts
        ≡ record { tenant_id = tenant_id; rule = some rule.id } ∷ map origin w.alerts
  unfolding trigger_alert alert_params after_alert
  trigger_alert-origin rule m w up =
      let s : Session = e.db w.statements in
      let p : CreateAlertParams = alert_params e tenant_id rule m in
      ap
        (λ (c : Fetched AlertRow × List AlertRow).
          map origin
            (after_alert e tenant_id rule m c.0
              (record w { alerts = c.1; statements = w.statements + 1 })).1.alerts)
        (created_alert s p w.alerts up)
      ∙ maybe_workflow-origin rule.trigger_workflow_id rule (new_alert s p).id m _

  act_on-origin :
      (rule : AlertRuleRow) (m : MetricData) (r : Result Bool) (w : World)
      → (e.db w.statements).fault ≡ none
      → map origin (act_on e tenant_id rule m r w).alerts ≡ (
          if triggers r
          then record { tenant_id = tenant_id; rule = some rule.id } ∷ map origin w.alerts
          else map origin w.alerts)
  act_on-origin rule m (err x) w up = refl
  act_on-origin rule m (ok false) w up = refl
  act_on-origin rule m (ok true) w up = trigger_alert-origin rule m w up

  evaluate_rules-origin :
      ((n : ℕ) → (e.db n).fault ≡ none)
      → (m : MetricData) (rules : List AlertRuleRow) (w : World)
      → map origin (evaluate_rules e tenant_id m rules w).alerts
        ≡ raised e tenant_id m rules (map origin w.alerts)
  unfolding evaluate_rules
  evaluate_rules-origin up m [] w = refl
  evaluate_rules-origin up m (rule ∷ rules) w =
      evaluate_rules-origin up m rules _
      ∙ ap (raised e tenant_id m rules)
          (act_on-origin rule m (evaluate_rule e.unmarshal_error rule m) w (up w.statements))

-- The evaluation of a metric raises one alert for each rule that the database gives for the metric
-- and that the metric triggers, with the tenant and the rule, and no other alert, and changes no
-- earlier alert in these; it returns no error. So it does whatever comes of the workflows.
-- Conditions: no statement fails.
pub evaluate_metric_lem :
    (e : Environment) (tenant_id : Uuid) (m : MetricData) (w : World)
    → ((n : ℕ) → (e.db n).fault ≡ none)
    → ((evaluate_metric e tenant_id m w).0 ≡ ok tt)
      × (map origin (evaluate_metric e tenant_id m w).1.alerts
          ≡ raised e tenant_id m
              (select (is_for_metric e.metric_name_of (e.db w.statements) tenant_id m.name) w.rules)
              (map origin w.alerts))
unfolding evaluate_metric get_alert_rules_for_metric
evaluate_metric_lem e tenant_id m w up =
    let rules : List AlertRuleRow =
      select (is_for_metric e.metric_name_of (e.db w.statements) tenant_id m.name) w.rules in
    let end =
      ap (λ x. with_rules e tenant_id m (answer x (ok rules)) (read e w)) (up w.statements) in
    (
      ap (λ y. y.0) end,
      ap (λ y. map origin y.1.alerts) end ∙ evaluate_rules-origin e tenant_id up m rules (read e w),
    )
