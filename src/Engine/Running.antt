-- ===== src/Engine/Running.antt =====
-- How a run goes through its steps.
use orchestrix_api.Common.{
  is_some, ℕ, suc, String, ◌+++◌, ◌≡◌, refl, ap, true, false, if_elim, sym, subst, ◌≢◌, Option,
  none, some, List, [], ◌∷◌, length, All, arith, ◌∙◌,
}
use orchestrix_api.Fault.{Error, Result, ok, err}
use orchestrix_api.Engine.Definition.{
  StepDefinition, id_of, name_of, kind_of, goes_on, WorkflowDefinition, parse_definition,
}
use orchestrix_api.Engine.Step.{Temporal, Trace, Value, Outputs, input_map, execute_step}
use orchestrix_api.Engine.Dynamic.{
  DynamicWorkflowInput, DynamicWorkflowOutput, failed_result, StepResult, completed, failed, Run,
  store, after_step, run_steps, run_all, run_parsed, finish, dynamic_workflow,
}

-- The result of a step that gave an output, or failed with none, and its error, if it has one.
pub record IsResultOf (s : StepDefinition) (o : Option Value) (message : String) (r : StepResult)
    : Type 0 where
  pub step_id : r.step_id ≡ id_of s
  pub step_name : r.step_name ≡ name_of s
  pub step_type : r.step_type ≡ kind_of s
  pub output : r.output ≡ o
  pub success : r.success ≡ is_some o
  pub error : r.error ≡ message

-- How steps are executed, from the i-th, the outputs and the activities so far: in order, each from
-- what the one before it left, up to the first that fails and does not continue on an error. The
-- error is there just when there is such a step.
pub data Executed (t : Temporal)
    : ℕ
      → List StepDefinition
      → Outputs
      → Trace
      → List StepResult
      → Option String
      → Outputs
      → Trace
      → Type 0 where
  finished : {i : ℕ} {o : Outputs} {h : Trace} → Executed t i [] o h [] none o h
  passed :
      {i : ℕ} {s : StepDefinition} {ss : List StepDefinition} {o o' : Outputs} {h g h' : Trace}
      {r : StepResult} {rs : List StepResult} {f : Option String} (v : Value)
      → execute_step t s o h ≡ (ok v, g)
      → IsResultOf s (some v) "" r
      → Executed t (suc i) ss (store i (id_of s) v o) g rs f o' h'
      → Executed t i (s ∷ ss) o h (r ∷ rs) f o' h'
  tolerated :
      {i : ℕ} {s : StepDefinition} {ss : List StepDefinition} {o o' : Outputs} {h g h' : Trace}
      {r : StepResult} {rs : List StepResult} {f : Option String} (e : Error)
      → execute_step t s o h ≡ (err e, g)
      → IsResultOf s none (t.error_text e) r
      → goes_on s ≡ true
      → Executed t (suc i) ss o g rs f o' h'
      → Executed t i (s ∷ ss) o h (r ∷ rs) f o' h'
  stopped :
      {i : ℕ} {s : StepDefinition} {ss : List StepDefinition} {o : Outputs} {h g : Trace}
      {r : StepResult} (e : Error)
      → execute_step t s o h ≡ (err e, g)
      → IsResultOf s none (t.error_text e) r
      → goes_on s ≡ false
      → Executed t i
          (s ∷ ss)
          o
          h
          (r ∷ [])
          (some ("step " +++ id_of s +++ " failed: " +++ t.error_text e))
          o
          g

-- What a run says of how its steps were executed.
abbrev pub ExecutedAs : Temporal → ℕ → List StepDefinition → Outputs → Trace → Run → Type 0
ExecutedAs t i ss o h run = Executed t i ss o h run.results run.failure run.outputs run.trace

module _ (t : Temporal) where
  after_step-Executed :
      (i : ℕ) (s : StepDefinition) (ss : List StepDefinition) (o : Outputs) (h g : Trace)
      (r : Result Value) (go_on : Outputs → Run)
      → execute_step t s o h ≡ (r, g)
      → ((o' : Outputs) → ExecutedAs t (suc i) ss o' g (go_on o'))
      → ExecutedAs t i (s ∷ ss) o h (after_step t i s o h g go_on r)
  unfolding after_step
  after_step-Executed i s ss o h g (err e) go_on q later =
      if_elim {A = Run} (λ run. ExecutedAs t i (s ∷ ss) o h run) (goes_on s) _ _
        (λ c. tolerated e q failing c (later o)) λ c. stopped e q failing c
    where
      failing : IsResultOf s none (t.error_text e) (failed_result t s h g e)
      failing = record {
        step_id = refl;
        step_name = refl;
        step_type = refl;
        output = refl;
        success = refl;
        error = refl;
      }
  after_step-Executed i s ss o h g (ok v) go_on q later =
      passed v q
        (record {
          step_id = refl;
          step_name = refl;
          step_type = refl;
          output = refl;
          success = refl;
          error = refl;
        })
        (later (store i (id_of s) v o))

  run_steps-Executed :
      (i : ℕ) (ss : List StepDefinition) (o : Outputs) (h : Trace)
      → ExecutedAs t i ss o h (run_steps t i ss o h)
  unfolding run_steps
  run_steps-Executed i [] o h = finished
  run_steps-Executed i (s ∷ ss) o h =
      after_step-Executed i s ss o h (execute_step t s o h).1 (execute_step t s o h).0
        (λ o'. run_steps t (suc i) ss o' (execute_step t s o h).1) refl
        λ o'. run_steps-Executed (suc i) ss o' (execute_step t s o h).1

-- A run that no step ended has a result for every step.
pub length-Executed :
    (t : Temporal) {i : ℕ} {ss : List StepDefinition} {o o' : Outputs} {h h' : Trace}
    {rs : List StepResult} (f : Option String)
    → Executed t i ss o h rs f o' h'
    → f ≡ none
    → length rs ≡ length ss
length-Executed t f finished q = refl
length-Executed t f (passed v x r e) q = omega (arith, length-Executed t f e q)
length-Executed t f (tolerated x y r g e) q = omega (arith, length-Executed t f e q)
length-Executed t f (stopped x y r g) q = cc

-- Steps that all continue on an error are all executed.
failure-tolerated :
    (t : Temporal) {i : ℕ} {ss : List StepDefinition} {o o' : Outputs} {h h' : Trace}
    {rs : List StepResult} (f : Option String)
    → Executed t i ss o h rs f o' h'
    → All (λ s. goes_on s ≡ true) ss
    → f ≡ none
failure-tolerated t f finished all = refl
failure-tolerated t f (passed v x r e) (g, all) = failure-tolerated t f e all
failure-tolerated t f (tolerated x y r c e) (g, all) = failure-tolerated t f e all
failure-tolerated t f (stopped x y r c) (g, all) = cc

-- How handlers are executed, on the outputs that the steps left: every one in turn, whatever comes of
-- it.
pub data Handled (t : Temporal) (o : Outputs) : List StepDefinition → Trace → Trace → Type 0 where
  no_more : {g : Trace} → Handled t o [] g g
  next :
      {s : StepDefinition} {ss : List StepDefinition} {g h h' : Trace} (r : Result Value)
      → execute_step t s o g ≡ (r, h)
      → Handled t o ss h h'
      → Handled t o (s ∷ ss) g h'

run_all-Handled :
    (t : Temporal) (ss : List StepDefinition) (o : Outputs) (g : Trace)
    → Handled t o ss g (run_all t ss o g)
unfolding run_all
run_all-Handled t [] o g = no_more
run_all-Handled t (s ∷ ss) o g =
    next (execute_step t s o g).0 refl (run_all-Handled t ss o (execute_step t s o g).1)

-- How the steps of a run are executed: on the input alone, from the first.
abbrev pub ExecutedBy :
    Temporal
    → DynamicWorkflowInput
    → WorkflowDefinition
    → Trace
    → DynamicWorkflowOutput
    → Option String
    → Trace
    → Type 0
ExecutedBy t input def h out f g =
    Executed t 0 def.steps (("input", input_map input.input) ∷ []) h out.step_results f out.output g

-- The end of a run: refused, with the error of the parser and no call of an activity; completed, and
-- then the handlers of a success; or failed at a step, and then those of an error.
pub data Ended (t : Temporal) (input : DynamicWorkflowInput) (h : Trace)
    (out : DynamicWorkflowOutput) : Trace → Type 0 where
  refused :
      (e : Error)
      → parse_definition (t.decode_definition input.definition) ≡ err e
      → out.status ≡ failed
      → out.error ≡ "failed to parse definition: " +++ t.error_text e
      → out.step_results ≡ []
      → Ended t input h out h
  completed_run :
      (def : WorkflowDefinition) {g h' : Trace}
      → parse_definition (t.decode_definition input.definition) ≡ ok def
      → ExecutedBy t input def h out none g
      → out.status ≡ completed
      → out.error ≡ ""
      → Handled t out.output def.on_success g h'
      → Ended t input h out h'
  failed_run :
      (def : WorkflowDefinition) (message : String) {g h' : Trace}
      → parse_definition (t.decode_definition input.definition) ≡ ok def
      → ExecutedBy t input def h out (some message) g
      → out.status ≡ failed
      → out.error ≡ message
      → Handled t out.output def.on_error g h'
      → Ended t input h out h'

finish-Ended :
    (t : Temporal) (input : DynamicWorkflowInput) (def : WorkflowDefinition) (h : Trace)
    (rs : List StepResult) (f : Option String) (o : Outputs) (g : Trace)
    → parse_definition (t.decode_definition input.definition) ≡ ok def
    → Executed t 0 def.steps (("input", input_map input.input) ∷ []) h rs f o g
    → let ended =
        finish t input def
          (t.now h)
          (record { results = rs; failure = f; outputs = o; trace = g }) in
      Ended t input h ended.0 ended.1
unfolding finish
finish-Ended t input def h rs none o g q done =
    completed_run def q done refl refl (run_all-Handled t def.on_success o g)
finish-Ended t input def h rs (some m) o g q done =
    failed_run def m q done refl refl (run_all-Handled t def.on_error o g)

-- DynamicWorkflow fails a definition that does not parse before any activity. Else it executes the
-- steps in order, each from the outputs that the ones before it left, up to the first that fails and
-- does not continue on an error. If there is such a step, the run has failed with its error, and then
-- all the handlers of on_error are executed; otherwise it has completed without an error, and then
-- all those of on_success are.
pub dynamic_workflow_lem :
    (t : Temporal) (input : DynamicWorkflowInput) (h : Trace)
    → Ended t input h (dynamic_workflow t input h).0 (dynamic_workflow t input h).1
unfolding dynamic_workflow
dynamic_workflow_lem t input h = go (parse_definition (t.decode_definition input.definition)) refl
  where
    go :
        (r : Result WorkflowDefinition)
        → parse_definition (t.decode_definition input.definition) ≡ r
        → Ended t input h (run_parsed t input r h).0 (run_parsed t input r h).1
    go (err e) q = refused e q refl refl refl
    go (ok def) q =
        let run = run_steps t 0 def.steps (("input", input_map input.input) ∷ []) h in
        finish-Ended t input def h run.results run.failure run.outputs run.trace q
          (run_steps-Executed t 0 def.steps (("input", input_map input.input) ∷ []) h)

-- A definition that parses and whose steps all continue on an error completes, with one result for
-- each step, whatever the activities return.
pub dynamic_workflow_completes :
    (t : Temporal) (input : DynamicWorkflowInput) (trace : Trace) (def : WorkflowDefinition)
    → parse_definition (t.decode_definition input.definition) ≡ ok def
    → All (λ s. goes_on s ≡ true) def.steps
    → ((dynamic_workflow t input trace).0.status ≡ completed)
      × (length (dynamic_workflow t input trace).0.step_results ≡ length def.steps)
dynamic_workflow_completes t input trace def q all = go (dynamic_workflow_lem t input trace)
  where
    err≢ok : (e : Error) (d : WorkflowDefinition) → err e ≢ ok d
    err≢ok e d q = cc

    some≢none : (m : String) → some m ≢ none
    some≢none m q = cc

    all_of : (d : WorkflowDefinition) → d ≡ def → All (λ s. goes_on s ≡ true) d.steps
    all_of d same = subst (λ x. All (λ s. goes_on s ≡ true) x.steps) (sym same) all

    go :
        {out : DynamicWorkflowOutput} {g : Trace}
        → Ended t input trace out g
        → (out.status ≡ completed) × (length out.step_results ≡ length def.steps)
    go (refused e r s m n) = absurd (err≢ok e def (sym r ∙ q))
    go (completed_run d r done status m g) =
        let same : d ≡ def = cc (sym r ∙ q) in
        (status, cc (length-Executed t none done refl, ap (λ x. length x.steps) same))
    go (failed_run d message r done status m g) =
        let same : d ≡ def = cc (sym r ∙ q) in
        absurd (some≢none message (failure-tolerated t (some message) done (all_of d same)))
