-- ===== src/Engine/Dispatch.antt =====
-- Which activity a step calls.
use orchestrix_api.Common.{
  String, ◌≡◌, refl, sym, true, ◌∷◌, str_eq, eq_iff, if_elim, ◌⊎◌, inl, inr,
}
use orchestrix_api.Fault.{Error, Result, ok, err}
use orchestrix_api.Engine.Definition.{Fields, StepDefinition, kind_of, config_of}
use orchestrix_api.Engine.Step.{
  Temporal, Trace, Value, Outputs, ActivityOptions, Activity, http, delay, log, notify, validate,
  process, default_options, options_of, execute_activity, with_config, execute_http, execute_delay,
  execute_log, execute_notify, execute_validate, execute_process, dispatch, execute_step,
}

-- The step type that an activity belongs to.
abbrev pub step_type_of : Activity → String
step_type_of (http c) = "http"
step_type_of (delay d) = "delay"
step_type_of (log c) = "log"
step_type_of (notify id status message) = "notify"
step_type_of (validate id name) = "validate"
step_type_of (process id params) = "process"

-- A step fails before any activity, or its result is that of the one activity that it calls.
abbrev pub CallsAtMostOne :
    Temporal → ActivityOptions → String → Trace → Result Value × Trace → Type 0
CallsAtMostOne t options kind trace (r, after) =
    ((e : Error) × (r ≡ err e) × (after ≡ trace))
    ⊎ ((a : Activity) × (step_type_of a ≡ kind)
        × (r ≡ t.run trace options a)
        × (after ≡ (options, a) ∷ trace))

module _ (t : Temporal) (options : ActivityOptions) (trace : Trace) where
  with_config-CallsAtMostOne :
      {C : Type 0} (kind prefix : String) (c : Result C) (f : C → Activity)
      → ((x : C) → step_type_of (f x) ≡ kind)
      → CallsAtMostOne t options kind trace (with_config t prefix c f options trace)
  unfolding execute_activity
  with_config-CallsAtMostOne kind prefix (err e) f of = inl (_, refl, refl)
  with_config-CallsAtMostOne kind prefix (ok x) f of = inr (f x, of x, refl, refl)

  dispatch-CallsAtMostOne :
      (kind : String) (config : Fields) (outputs : Outputs)
      → CallsAtMostOne t options kind trace (dispatch t kind options config outputs trace)
  unfolding dispatch execute_http execute_delay execute_log execute_notify execute_validate
      execute_process execute_activity
  dispatch-CallsAtMostOne kind config outputs =
      if_elim P (str_eq kind "http") _ _ (λ q. with_config-CallsAtMostOne kind _ _ _ λ x. is q)
        λ _.
          if_elim P (str_eq kind "delay") _ _ (λ q. with_config-CallsAtMostOne kind _ _ _ λ x. is q)
            λ _.
              if_elim P (str_eq kind "log") _ _
                (λ q. with_config-CallsAtMostOne kind _ _ _ λ x. is q)
                λ _.
                  if_elim P (str_eq kind "notify") _ _
                    (λ q. with_config-CallsAtMostOne kind _ _ _ λ x. is q)
                    λ _.
                      if_elim P (str_eq kind "validate") _ _ (λ q. inr (_, is q, refl, refl))
                        λ _.
                          if_elim P (str_eq kind "process") _ _ (λ q. inr (_, is q, refl, refl))
                            λ _. inl (_, refl, refl)
    where
      P : Result Value × Trace → Type 0
      P x = CallsAtMostOne t options kind trace x

      is : {s : String} → str_eq kind s ≡ true → s ≡ kind
      is {s} q = sym ((eq_iff kind s).0 q)

-- A step calls at most one activity, the one of its type with the options of the step, and its
-- result is the activity's. So a step of a type that has no activity, such as "condition", "script"
-- or "parallel", fails without any.
pub execute_step_lem :
    (t : Temporal) (s : StepDefinition) (outputs : Outputs) (trace : Trace)
    → CallsAtMostOne t
        (options_of t s (default_options t))
        (kind_of s)
        trace
        (execute_step t s outputs trace)
unfolding execute_step
execute_step_lem t s outputs trace =
    dispatch-CallsAtMostOne t (options_of t s (default_options t)) trace (kind_of s) (config_of s)
      outputs
