-- ===== src/Tests/Runs.antt =====
-- The interpreter's theorems on a definition of three steps.
use orchestrix_api.Common.{◌≡◌, ◌≢◌, ◌⊎◌, true, none, some, List, [], ◌∷◌, pos, lookup, or_else}
use orchestrix_api.Fault.{Error, other, Result, ok, err}
use orchestrix_api.Domain.Values.{at_rank}
use orchestrix_api.Engine.Definition.{
  no_fields, field, Json, StepDefinition, step, no_steps, WorkflowDefinition, kind_of, rename,
  validate_definition,
}
use orchestrix_api.Engine.Parsing.{Completed, Untyped, validate_definition_lem}
use orchestrix_api.Engine.Step.{
  Temporal, Value, result, Activity, default_options, options_of, execute_step,
}
use orchestrix_api.Engine.Dispatch.{CallsAtMostOne, execute_step_lem}
use orchestrix_api.Engine.Dynamic.{DynamicWorkflowInput, run_steps, dynamic_workflow}
use orchestrix_api.Engine.Running.{Ended, dynamic_workflow_lem}
use orchestrix_api.Engine.Outputs.{last_output, run_steps-last_output}

abbrev a_step : StepDefinition
a_step = step "" "hello" "log" no_fields "" none true "" no_steps no_steps no_steps

abbrev a_script : StepDefinition
a_script = step "calc" "" "script" no_fields "" none true "" no_steps no_steps no_steps

abbrev a_check : StepDefinition
a_check =
    step "check" "" "validate" (field "id" (Json.text "7") no_fields) "5s" none true "" no_steps
      no_steps no_steps

abbrev a_definition : WorkflowDefinition
a_definition = record {
  version = "1";
  name = "nightly";
  description = "";
  timeout = "";
  retry_policy = none;
  steps = a_step ∷ a_script ∷ a_check ∷ [];
  on_error = [];
  on_success = a_step ∷ [];
}

abbrev parsed_definition : WorkflowDefinition
parsed_definition = record a_definition {
  steps =
      rename "step_1" "hello" a_step
      ∷ rename "calc" "script" a_script
      ∷ rename "check" "validate" a_check
      ∷ [];
}

-- Activities that succeed, but for the validations.
abbrev outcome : Activity → Result Value
outcome (Activity.validate id name) = err (other "no name")
outcome _ = ok (result "done")

abbrev a_temporal : Temporal
a_temporal = record {
  now = λ trace. 62135596800000000000;
  run = λ trace options activity. outcome activity;
  decode_definition = λ s. ok a_definition;
  decode_http = λ config. err (other "no url");
  decode_delay = λ config. ok "";
  decode_log = λ config. ok (record { level = ""; message = "hello" });
  decode_notify = λ config. err (other "no channel");
  parse_duration = λ s. some (pos 5000000000);
  float_constant = λ s. at_rank 9;
  error_text = λ e. "failed";
}

abbrev an_input : DynamicWorkflowInput
an_input = record {
  execution_id = "8";
  workflow_id = "7";
  name = "nightly";
  definition = "{}";
  input = no_fields;
}

validate_definition_lem_example :
    ((ts : List StepDefinition) × (validate_definition a_definition
        ≡ ok (record a_definition { steps = ts }))
      × (a_definition.steps ≢ [])
      × Completed 0 a_definition.steps ts)
    ⊎ ((e : Error) × (validate_definition a_definition ≡ err e)
        × ((a_definition.steps ≡ []) ⊎ Untyped a_definition.steps))
validate_definition_lem_example = validate_definition_lem a_definition

execute_step_lem_example :
    CallsAtMostOne a_temporal
      (options_of a_temporal a_script (default_options a_temporal))
      (kind_of a_script)
      []
      (execute_step a_temporal a_script [] [])
execute_step_lem_example = execute_step_lem a_temporal a_script [] []

dynamic_workflow_lem_example :
    Ended a_temporal an_input []
      (dynamic_workflow a_temporal an_input []).0
      (dynamic_workflow a_temporal an_input []).1
dynamic_workflow_lem_example = dynamic_workflow_lem a_temporal an_input []

run_steps-last_output_example :
    lookup "step_1" (run_steps a_temporal 0 parsed_definition.steps [] []).outputs
    ≡ or_else
        (last_output "step_1" 0 (run_steps a_temporal 0 parsed_definition.steps [] []).results)
        (lookup "step_1" [])
run_steps-last_output_example =
    run_steps-last_output a_temporal "step_1" 0 parsed_definition.steps [] []
