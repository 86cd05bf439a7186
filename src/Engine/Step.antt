-- ===== src/Engine/Step.antt =====
-- internal/workflow/dynamic.go: executeStep and the functions that it dispatches to.
use orchestrix_api.Common.{
  String, ◌+++◌, Option, none, some, List, [], ◌∷◌, ℤ, pos, wrap, str_eq, lookup, if◌then◌else◌,
}
use orchestrix_api.Fault.{Error, wrapped, other, Result, ok, err}
use orchestrix_api.Domain.Values.{Time, Float64, gt_float}
use orchestrix_api.Engine.Definition.{
  Json, text, object, Fields, no_fields, field, RetryPolicyDef, StepDefinition, kind_of, config_of,
  timeout_of, retry_of, HttpConfig, LogConfig, NotifyConfig, WorkflowDefinition, complete_http,
  complete_delay, complete_log,
}

-- workflow.ActivityOptions and temporal.RetryPolicy; durations are in nanoseconds.
pub record RetryPolicy : Type 0 where
  pub initial_interval : ℤ
  pub backoff_coefficient : Float64
  pub maximum_interval : ℤ
  pub maximum_attempts : ℤ

pub record ActivityOptions : Type 0 where
  pub start_to_close_timeout : ℤ
  pub retry_policy : RetryPolicy

-- An activity by its name, with its input.
pub data Activity : Type 0 where
  http : HttpConfig → Activity
  delay : String → Activity
  log : LogConfig → Activity
  notify : String → String → String → Activity
  validate : String → String → Activity
  process : String → List (String × String) → Activity

-- The activities that a run has called, the newest first.
abbrev pub Trace : Type 0
Trace = List (ActivityOptions × Activity)

-- An entry of stepOutputs: the input map, or the result of an activity, which is no map.
pub data Value : Type 0 where
  input_map : Fields → Value
  result : String → Value

abbrev pub Outputs : Type 0
Outputs = List (String × Value)

-- What the interpreter uses of the Temporal SDK and of Go's library: the clock of the workflow, an
-- activity run to its end with its retries, the decoding of JSON at a type, time.ParseDuration, a
-- float64 constant by its text, and the text of an error.
pub record Temporal : Type 0 where
  pub now : Trace → Time
  pub run : Trace → ActivityOptions → Activity → Result Value
  pub decode_definition : String → Result WorkflowDefinition
  pub decode_http : Fields → Result HttpConfig
  pub decode_delay : Fields → Result String
  pub decode_log : Fields → Result LogConfig
  pub decode_notify : Fields → Result NotifyConfig
  pub parse_duration : String → Option ℤ
  pub float_constant : String → Float64
  pub error_text : Error → String

-- config["key"]
unfoldable pub get_field : String → Fields → Option Json
get_field k no_fields = none
get_field k (field j v fs) = if str_eq j k then some v else get_field k fs

-- The type assertions `.(string)` and `.(map[string]interface{})`.
abbrev pub as_text : Option Json → Option String
as_text (some (text s)) = some s
as_text _ = none

abbrev pub input_of : Option Value → Option Fields
input_of (some (input_map fs)) = some fs
input_of _ = none

unfoldable pub text_in : String → Option Fields → Option String
unfolding get_field
text_in k none = none
text_in k (some fs) = as_text (get_field k fs)

abbrev pub or_empty : Option String → String
or_empty (some s) = s
or_empty none = ""

-- The ID of executeValidateStep and executeProcessStep: the config's, or else the input's.
unfoldable pub resource_id : Fields → Outputs → String
unfolding text_in
resource_id config outputs = elim (text_in "id" (some config)) [
  | some s ↦ s
  | none ↦ or_empty (text_in "id" (input_of (lookup "input" outputs)))
]

-- The entries of config["params"] that are texts.
unfoldable pub text_entries : Fields → List (String × String)
text_entries no_fields = []
text_entries (field k (text s) fs) = (k, s) ∷ text_entries fs
text_entries (field k v fs) = text_entries fs

abbrev pub params_of : Option Json → List (String × String)
params_of (some (object fs)) = text_entries fs
params_of _ = []

module _ (t : Temporal) where
  -- defaultAO
  unfoldable pub default_options : ActivityOptions
  default_options = record {
    start_to_close_timeout = pos 600000000000;
    retry_policy = record {
      initial_interval = pos 1000000000;
      backoff_coefficient = t.float_constant "2.0";
      maximum_interval = pos 60000000000;
      maximum_attempts = pos 3;
    };
  }

  -- A duration that is given and parses, or else the old one.
  unfoldable pub override_duration : String → ℤ → ℤ
  override_duration s old =
      if str_eq s "" then old else elim (t.parse_duration s) [ some d ↦ d | none ↦ old ]

  -- The fields that a new RetryPolicy is not given are zero.
  unfoldable pub retry_policy_of : Option RetryPolicyDef → RetryPolicy → RetryPolicy
  unfolding override_duration
  retry_policy_of none old = old
  retry_policy_of (some r) old = record {
    initial_interval = override_duration r.initial_interval (pos 0);
    backoff_coefficient =
        if gt_float r.multiplier (t.float_constant "0") then r.multiplier else t.float_constant "0";
    maximum_interval = override_duration r.max_interval (pos 0);
    maximum_attempts = wrap 32 r.max_attempts;
  }

  unfoldable pub options_of : StepDefinition → ActivityOptions → ActivityOptions
  unfolding override_duration retry_policy_of
  options_of s old = record {
    start_to_close_timeout = override_duration (timeout_of s) old.start_to_close_timeout;
    retry_policy = retry_policy_of (retry_of s) old.retry_policy;
  }

  -- workflow.ExecuteActivity(...).Get(...)
  unfoldable pub execute_activity : ActivityOptions → Activity → Trace → Result Value × Trace
  execute_activity options activity trace =
      (t.run trace options activity, (options, activity) ∷ trace)

  -- The first lines of the steps with a config of their own: no activity if it does not decode.
  abbrev pub with_config :
      {C : Type 0}
      → String
      → Result C
      → (C → Activity)
      → ActivityOptions
      → Trace
      → Result Value × Trace
  unfolding execute_activity
  with_config prefix (err e) f options trace = (err (wrapped prefix e), trace)
  with_config prefix (ok c) f options trace = execute_activity options (f c) trace

  unfoldable pub execute_http : ActivityOptions → Fields → Trace → Result Value × Trace
  unfolding execute_activity complete_http
  execute_http options config trace =
      with_config "invalid HTTP config" (t.decode_http config) (λ c. http (complete_http c)) options
        trace

  unfoldable pub execute_delay : ActivityOptions → Fields → Trace → Result Value × Trace
  unfolding execute_activity complete_delay
  execute_delay options config trace =
      with_config "invalid delay config" (t.decode_delay config) (λ c. delay (complete_delay c))
        options trace

  unfoldable pub execute_log : ActivityOptions → Fields → Trace → Result Value × Trace
  unfolding execute_activity complete_log
  execute_log options config trace =
      with_config "invalid log config" (t.decode_log config) (λ c. log (complete_log c)) options
        trace

  unfoldable pub execute_notify : ActivityOptions → Fields → Outputs → Trace → Result Value × Trace
  unfolding execute_activity text_in
  execute_notify options config outputs trace =
      with_config "invalid notify config" (t.decode_notify config)
        (λ c.
          notify (or_empty (text_in "execution_id" (input_of (lookup "input" outputs)))) "completed"
            c.message)
        options trace

  unfoldable pub execute_validate :
      ActivityOptions → Fields → Outputs → Trace → Result Value × Trace
  unfolding execute_activity resource_id text_in
  execute_validate options config outputs trace =
      execute_activity options
        (validate (resource_id config outputs) (or_empty (text_in "name" (some config)))) trace

  unfoldable pub execute_process : ActivityOptions → Fields → Outputs → Trace → Result Value × Trace
  unfolding execute_activity resource_id get_field text_entries
  execute_process options config outputs trace =
      execute_activity options
        (process (resource_id config outputs) (params_of (get_field "params" config))) trace

  -- The `switch` on the type of the step.
  unfoldable pub dispatch :
      String → ActivityOptions → Fields → Outputs → Trace → Result Value × Trace
  unfolding execute_http execute_delay execute_log execute_notify execute_validate execute_process
  dispatch kind options config outputs trace =
      if str_eq kind "http"
      then execute_http options config trace
      else if str_eq kind "delay"
      then execute_delay options config trace
      else if str_eq kind "log"
      then execute_log options config trace
      else if str_eq kind "notify"
      then execute_notify options config outputs trace
      else if str_eq kind "validate"
      then execute_validate options config outputs trace
      else if str_eq kind "process"
      then execute_process options config outputs trace
      else (err (other ("unknown step type: " +++ kind)), trace)

  unfoldable pub execute_step : StepDefinition → Outputs → Trace → Result Value × Trace
  unfolding options_of default_options dispatch
  execute_step s outputs trace =
      dispatch (kind_of s) (options_of s default_options) (config_of s) outputs trace
