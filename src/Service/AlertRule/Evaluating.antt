-- ===== src/Service/AlertRule/Evaluating.antt =====
-- Which alerts Evaluate raises.
use orchestrix_api.Common.{
  String, ◌≡◌, refl, ap, ◌∙◌, ◌⊎◌, inl, inr, Bool, true, false, Bool-cases, if◌then◌else◌, Option,
  none, some, List, [], ◌∷◌, ◌++◌,
}
use mathlib.Core.List.{append_assoc}
use orchestrix_api.Fault.{Error, Result, ok, err}
use orchestrix_api.Domain.Values.{Uuid, Float64}
use orchestrix_api.Domain.Alert.{Alert}
use orchestrix_api.Domain.AlertRule.{
  AlertRule, Checked, failed, value, can_trigger, evaluate_threshold,
}
use orchestrix_api.Domain.AlertRule.Threshold.{Fires, evaluate_threshold_iff}
use orchestrix_api.Port.Call.{Ports, History}
use orchestrix_api.Port.Action.{ignore, write}
use orchestrix_api.Port.Trace.{alert_saves}
use orchestrix_api.Service.Alert as AlertService
use orchestrix_api.Service.AlertRule.Raising.{IsAlertOf, Created, alert_saves-execute, create-After}
use orchestrix_api.Service.AlertRule.{
  alert_input, Outcome, returned, panicked, trigger_workflow, after_create, after_check,
  evaluate_rule, evaluate_rules, evaluate_found, evaluate,
}

module _ (p : Ports) (tenant : Uuid) (v : Float64) where
  -- What becomes of one rule: whether the loop goes on, and the alert that was asked for.
  pub data Handled (r : AlertRule) : Bool → List Alert → Type 0 where
    held_back : (g : History) → can_trigger (p.host.now g 0) r ≡ false → Handled r true []
    silent : ¬ Fires v r → Handled r true []
    unset : (g : History) (e : Error) → p.set_tenant g tenant ≡ err e → Handled r true []
    raised :
        (g : History) (a : Alert)
        → can_trigger (p.host.now g 0) r ≡ true
        → Fires v r
        → IsAlertOf tenant r a
        → Handled r true (a ∷ [])
    crashed :
        (g : History) (a : Alert) (w : Uuid)
        → can_trigger (p.host.now g 0) r ≡ true
        → Fires v r
        → IsAlertOf tenant r a
        → r.trigger_workflow_id ≡ some w
        → p.has_workflow_service ≡ false
        → Handled r false (a ∷ [])

  -- What becomes of the rules in turn: the outcome, and the alerts, the newest first.
  pub data HandledAll : List AlertRule → Outcome → List Alert → Type 0 where
    done : HandledAll [] (returned (ok tt)) []
    next :
        {r : AlertRule} {rs : List AlertRule} {o : Outcome} {new later all : List Alert}
        → Handled r true new
        → HandledAll rs o later
        → all ≡ later ++ new
        → HandledAll (r ∷ rs) o all
    crash :
        {r : AlertRule} {rs : List AlertRule} {new : List Alert}
        → Handled r false new
        → HandledAll (r ∷ rs) panicked new

-- The alerts after a step are those before it and what became of the rule.
abbrev Step : Ports → Uuid → Float64 → AlertRule → History → Bool × History → Type 0
Step p tenant v r h (go_on, h') =
    (new : List Alert) × Handled p tenant v r go_on new × (alert_saves h' ≡ new ++ alert_saves h)

-- The facts about a rule that is over its threshold and not held back.
record IsReady (p : Ports) (v : Float64) (r : AlertRule) : Type 0 where
  time : History
  can : can_trigger (p.host.now time 0) r ≡ true
  fires : Fires v r

module _ (p : Ports) (tenant : Uuid) (v : Float64) (r : AlertRule) (ready : IsReady p v r) where
  trigger_handled :
      (o : Option Uuid) (service : Bool) (a : Alert) (h g : History)
      → r.trigger_workflow_id ≡ o
      → p.has_workflow_service ≡ service
      → IsAlertOf tenant r a
      → alert_saves g ≡ a ∷ alert_saves h
      → Step p tenant v r h (trigger_workflow p o service g)
  unfolding trigger_workflow
  trigger_handled none service a h g t s of saved =
      (a ∷ [], raised ready.time a ready.can ready.fires of, saved)
  trigger_handled (some w) true a h g t s of saved = (
    a ∷ [],
    raised ready.time a ready.can ready.fires of,
    alert_saves-execute p w "" "null" g ∙ saved,
  )
  trigger_handled (some w) false a h g t s of saved =
      (a ∷ [], crashed ready.time a w ready.can ready.fires of t s, saved)

  after_create_handled :
      (res : Result Alert) (a : Alert) (h g : History)
      → IsAlertOf tenant r a
      → alert_saves g ≡ a ∷ alert_saves h
      → Step p tenant v r h (after_create p r res g)
  unfolding after_create ignore write
  after_create_handled (err e) a h g of saved =
      (a ∷ [], raised ready.time a ready.can ready.fires of, saved)
  after_create_handled (ok b) a h g of saved =
      trigger_handled r.trigger_workflow_id p.has_workflow_service a h _ refl refl of saved

  create_handled :
      (res : Result Alert) (h g : History)
      → Created p tenant r h res g
      → Step p tenant v r h (after_create p r res g)
  unfolding after_create
  create_handled res h g (inl (e, g', x, failed_with, q, same)) =
      rw failed_with ([], unset g' x q, same)
  create_handled res h g (inr (a, of, saved)) = after_create_handled res a h g of saved

module _ (p : Ports) (tenant : Uuid) (v : Float64) (r : AlertRule) where
  check_handled :
      (c : Checked Bool) (t h : History)
      → evaluate_threshold v r ≡ c
      → can_trigger (p.host.now t 0) r ≡ true
      → Step p tenant v r h (after_check p tenant r c h)
  unfolding after_check
  check_handled (failed e) t h q can =
      ([], silent (λ f. cc ((evaluate_threshold_iff v r).1 f)), refl)
  check_handled (value false) t h q can =
      ([], silent (λ f. cc ((evaluate_threshold_iff v r).1 f)), refl)
  check_handled (value true) t h q can =
      create_handled p tenant v r
        (record { time = t; can = can; fires = (evaluate_threshold_iff v r).0 q })
        (AlertService.create p (alert_input tenant r) h).0 h
        (AlertService.create p (alert_input tenant r) h).1 (create-After p tenant r h).at

  rule_handled : (h : History) → Step p tenant v r h (evaluate_rule p tenant v r h)
  unfolding evaluate_rule
  rule_handled h = elim (Bool-cases (can_trigger (p.host.now h 0) r)) [
    | inl can ↦ rw can (check_handled (evaluate_threshold v r) h h refl can)
    | inr cannot ↦ rw cannot ([], held_back h cannot, refl)
  ]

-- What the loop should leave.
abbrev Steps : Ports → Uuid → Float64 → List AlertRule → History → Outcome × History → Type 0
Steps p tenant v rs h (o, h') =
    (new : List Alert) × HandledAll p tenant v rs o new × (alert_saves h' ≡ new ++ alert_saves h)

module _ (p : Ports) (tenant : Uuid) (v : Float64) where
  Step-then :
      (r : AlertRule) (rs : List AlertRule) (h : History) (s : Bool × History)
      (rest : Outcome × History)
      → Step p tenant v r h s
      → Steps p tenant v rs s.1 rest
      → Steps p tenant v (r ∷ rs) h (if s.0 then rest else (panicked, s.1))
  Step-then r rs h (true, g) (o, h') (new, handled, saved) (later, all, more) =
      (later ++ new, next handled all refl, rw append_assoc (more ∙ ap (λ l. later ++ l) saved))
  Step-then r rs h (false, g) rest (new, handled, saved) steps = (new, crash handled, saved)

  rules_handled :
      (rs : List AlertRule) (h : History) → Steps p tenant v rs h (evaluate_rules p tenant v rs h)
  unfolding evaluate_rules
  rules_handled [] h = ([], done, refl)
  rules_handled (r ∷ rs) h =
      Step-then r rs h (evaluate_rule p tenant v r h)
        (evaluate_rules p tenant v rs (evaluate_rule p tenant v r h).1)
        (rule_handled p tenant v r h) (rules_handled rs (evaluate_rule p tenant v r h).1)

  found_handled :
      (found : Result (List AlertRule)) (g h : History)
      → alert_saves g ≡ alert_saves h
      → ((e : Error) × (found ≡ err e)
          × ((evaluate_found p tenant v found g).0 ≡ returned (err e))
          × (alert_saves (evaluate_found p tenant v found g).1 ≡ alert_saves h))
        ⊎ ((rs : List AlertRule) × (new : List Alert) × (found ≡ ok rs)
            × HandledAll p tenant v rs (evaluate_found p tenant v found g).0 new
            × (alert_saves (evaluate_found p tenant v found g).1 ≡ new ++ alert_saves h))
  unfolding evaluate_found
  found_handled (err e) g h same = inl (e, refl, refl, same)
  found_handled (ok rs) g h same =
      let (new, handled, saved) = rules_handled rs g in
      inr (rs, new, refl, handled, saved ∙ ap (λ l. new ++ l) same)

-- Evaluate returns the error of the repository and raises nothing, or handles the enabled rules in
-- turn: a rule that its cooldown holds back, that does not fire on the value, or for whose alert the
-- tenant could not be set raises nothing; any other raises exactly one alert, with the rule's id,
-- severity, title and message. The loop goes on after each, and stops in a panic only at a rule that
-- raised an alert and names a workflow while there is no workflow service.
pub evaluate_lem :
    (p : Ports) (tenant : Uuid) (metric_name : String) (v : Float64) (h : History)
    → ((e : Error) × (p.rules.find_enabled_by_tenant h tenant ≡ err e)
        × ((evaluate p tenant metric_name v h).0 ≡ returned (err e))
        × (alert_saves (evaluate p tenant metric_name v h).1 ≡ alert_saves h))
      ⊎ ((rs : List AlertRule) × (new : List Alert) × (p.rules.find_enabled_by_tenant h tenant
            ≡ ok rs)
          × HandledAll p tenant v rs (evaluate p tenant metric_name v h).0 new
          × (alert_saves (evaluate p tenant metric_name v h).1 ≡ new ++ alert_saves h))
unfolding evaluate
evaluate_lem p tenant metric_name v h =
    found_handled p tenant v (p.rules.find_enabled_by_tenant h tenant) _ h refl
