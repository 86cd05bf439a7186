-- ===== src/Engine/Dynamic.antt =====
-- internal/workflow/dynamic.go: DynamicWorkflow
use orchestrix_api.Common.{
  ℕ, suc, ◌-◌, ◌/◌, String, ◌+++◌, Bool, true, false, Option, none, some, List, [], ◌∷◌, ℤ, pos,
  leb, sub_ℕ, insert, if◌then◌else◌,
}
use orchestrix_api.Fault.{Error, Result, ok, err}
use orchestrix_api.Domain.Values.{Time}
use orchestrix_api.Engine.Definition.{
  Fields, StepDefinition, id_of, name_of, kind_of, goes_on, WorkflowDefinition, index_key,
  parse_definition,
}
use orchestrix_api.Engine.Step.{Temporal, Trace, Value, input_map, Outputs, execute_step}

pub record DynamicWorkflowInput : Type 0 where
  pub execution_id : String
  pub workflow_id : String
  pub name : String
  pub definition : String
  pub input : Fields

pub record StepResult : Type 0 where
  pub step_id : String
  pub step_name : String
  pub step_type : String
  pub success : Bool
  pub output : Option Value
  pub error : String
  pub duration_ms : ℤ

pub data Status : Type 0 where
  completed failed : Status

-- The duration and the timestamp are unset where the definition did not parse.
pub record DynamicWorkflowOutput : Type 0 where
  pub execution_id : String
  pub status : Status
  pub step_results : List StepResult
  pub output : Outputs
  pub error : String
  pub duration_ms : ℤ
  pub timestamp : ℤ

-- end.Sub(start).Milliseconds()
abbrev pub milliseconds : Time → Time → ℤ
milliseconds start end =
    if leb start end then pos ((end - start) / 1000000) else sub_ℕ 0 ((start - end) / 1000000)

-- end.Unix(): the seconds since 1970, which began 62135596800 seconds after Go's zero time.
abbrev pub unix : Time → ℤ
unix end = sub_ℕ (end / 1000000000) 62135596800

-- What the loop over the steps leaves: the results, the error that ended it, the outputs, and the
-- activities called.
pub record Run : Type 0 where
  pub results : List StepResult
  pub failure : Option String
  pub outputs : Outputs
  pub trace : Trace

abbrev pub with_result : StepResult → Run → Run
with_result r run = record run { results = r ∷ run.results }

-- The two writes to stepOutputs after a step that succeeded, the i-th.
unfoldable pub store : ℕ → String → Value → Outputs → Outputs
store i id v outputs = insert (index_key i) v (insert id v outputs)

abbrev pub status_of : Option String → Status
status_of none = completed
status_of (some e) = failed

abbrev pub or_empty : Option String → String
or_empty none = ""
or_empty (some e) = e

abbrev pub handlers : WorkflowDefinition → Option String → List StepDefinition
handlers def none = def.on_success
handlers def (some e) = def.on_error

module _ (t : Temporal) where
  abbrev pub failed_result : StepDefinition → Trace → Trace → Error → StepResult
  failed_result s before after e = record {
    step_id = id_of s;
    step_name = name_of s;
    step_type = kind_of s;
    success = false;
    output = none;
    error = t.error_text e;
    duration_ms = milliseconds (t.now before) (t.now after);
  }

  abbrev pub passed_result : StepDefinition → Trace → Trace → Value → StepResult
  passed_result s before after v = record {
    step_id = id_of s;
    step_name = name_of s;
    step_type = kind_of s;
    success = true;
    output = some v;
    error = "";
    duration_ms = milliseconds (t.now before) (t.now after);
  }

  -- The rest of the loop's body and the loop after it, which goes on from the outputs that it is
  -- given.
  unfoldable pub after_step :
      ℕ → StepDefinition → Outputs → Trace → Trace → (Outputs → Run) → Result Value → Run
  unfolding store
  after_step i s outputs before after go_on (err e) =
      if goes_on s then with_result (failed_result s before after e) (go_on outputs) else record {
        results = failed_result s before after e ∷ [];
        failure = some ("step " +++ id_of s +++ " failed: " +++ t.error_text e);
        outputs = outputs;
        trace = after;
      }
  after_step i s outputs before after go_on (ok v) =
      with_result (passed_result s before after v) (go_on (store i (id_of s) v outputs))

  -- The loop over the steps, from the i-th.
  unfoldable pub run_steps : ℕ → List StepDefinition → Outputs → Trace → Run
  unfolding after_step execute_step
  run_steps i [] outputs trace = record {
    results = [];
    failure = none;
    outputs = outputs;
    trace = trace;
  }
  run_steps i (s ∷ ss) outputs trace =
      let (r, after) = execute_step t s outputs trace in
      after_step i s outputs trace after (λ o. run_steps (suc i) ss o after) r

  -- The loops over OnSuccess and OnError: the results are dropped.
  unfoldable pub run_all : List StepDefinition → Outputs → Trace → Trace
  unfolding execute_step
  run_all [] outputs trace = trace
  run_all (s ∷ ss) outputs trace = run_all ss outputs (execute_step t s outputs trace).1

  -- What follows the loop.
  unfoldable pub finish :
      DynamicWorkflowInput → WorkflowDefinition → Time → Run → DynamicWorkflowOutput × Trace
  unfolding run_all
  finish input def start run =
      let trace = run_all (handlers def run.failure) run.outputs run.trace in
      (
        record {
          execution_id = input.execution_id;
          status = status_of run.failure;
          step_results = run.results;
          output = run.outputs;
          error = or_empty run.failure;
          duration_ms = milliseconds start (t.now trace);
          timestamp = unix (t.now trace);
        },
        trace,
      )

  unfoldable pub run_parsed :
      DynamicWorkflowInput → Result WorkflowDefinition → Trace → DynamicWorkflowOutput × Trace
  unfolding run_steps finish
  run_parsed input (err e) trace = (
    record {
      execution_id = input.execution_id;
      status = failed;
      step_results = [];
      output = [];
      error = "failed to parse definition: " +++ t.error_text e;
      duration_ms = pos 0;
      timestamp = pos 0;
    },
    trace,
  )
  run_parsed input (ok def) trace =
      finish input def (t.now trace)
        (run_steps 0 def.steps (("input", input_map input.input) ∷ []) trace)

  -- DynamicWorkflow never returns an error of its own.
  unfoldable pub dynamic_workflow : DynamicWorkflowInput → Trace → DynamicWorkflowOutput × Trace
  unfolding run_parsed parse_definition
  dynamic_workflow input trace =
      run_parsed input (parse_definition (t.decode_definition input.definition)) trace
