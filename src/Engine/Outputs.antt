-- ===== src/Engine/Outputs.antt =====
-- What a run leaves in the outputs of its steps.
use orchestrix_api.Common.{
  ℕ, suc, String, ◌≡◌, refl, ap, ◌∙◌, true, false, Bool, ◌||◌, Option, none, some, List, [], ◌∷◌,
  str_eq, arith, if_elim, or_else, lookup, insert, lookup-insert, if◌then◌else◌,
}
use orchestrix_api.Fault.{Result, ok, err}
use orchestrix_api.Engine.Definition.{StepDefinition, id_of, goes_on, index_key}
use orchestrix_api.Engine.Step.{Temporal, Trace, Value, Outputs, execute_step}
use orchestrix_api.Engine.Dynamic.{StepResult, Run, store, after_step, run_steps}

-- The output that stands last under a key, by the results of the steps from the i-th: that of the
-- last step that succeeded and has the key as its ID or as the key of its index.
abbrev pub last_output : String → ℕ → List StepResult → Option Value
last_output k i [] = none
last_output k i (r ∷ rs) =
    or_else (last_output k (suc i) rs)
      (if str_eq (index_key i) k || str_eq r.step_id k then r.output else none)

lookup-store :
    (k : String) (i : ℕ) (id : String) (v : Value) (outputs : Outputs)
    → lookup k (store i id v outputs)
      ≡ (if str_eq (index_key i) k || str_eq id k then some v else lookup k outputs)
unfolding store
lookup-store k i id v outputs =
    ground
      (arith, lookup-insert (index_key i) k v (insert id v outputs), lookup-insert id k v outputs)

-- A result without an output writes nothing.
or_else_no_output :
    (c : Bool) (l o : Option Value) → or_else l o ≡ or_else (or_else l (if c then none else none)) o
or_else_no_output true (some v) o = refl
or_else_no_output true none o = refl
or_else_no_output false (some v) o = refl
or_else_no_output false none o = refl

or_else-write :
    (c : Bool) (l : Option Value) (v : Value) (o : Option Value)
    → or_else l (if c then some v else o) ≡ or_else (or_else l (if c then some v else none)) o
or_else-write true (some v) w o = refl
or_else-write true none w o = refl
or_else-write false (some v) w o = refl
or_else-write false none w o = refl

module _ (t : Temporal) (k : String) where
  after_step-last_output :
      (i : ℕ) (s : StepDefinition) (outputs : Outputs) (before after : Trace) (r : Result Value)
      (go_on : Outputs → Run)
      → ((o : Outputs)
          → lookup k (go_on o).outputs
            ≡ or_else (last_output k (suc i) (go_on o).results) (lookup k o))
      → lookup k (after_step t i s outputs before after go_on r).outputs
        ≡ or_else
            (last_output k i (after_step t i s outputs before after go_on r).results)
            (lookup k outputs)
  unfolding after_step
  after_step-last_output i s outputs before after (err e) go_on later =
      if_elim {A = Run}
        (λ run. lookup k run.outputs ≡ or_else (last_output k i run.results) (lookup k outputs))
        (goes_on s) _ _
        (λ q.
          later outputs
          ∙ or_else_no_output (str_eq (index_key i) k || str_eq (id_of s) k)
              (last_output k (suc i) (go_on outputs).results) (lookup k outputs))
        λ q.
          or_else_no_output (str_eq (index_key i) k || str_eq (id_of s) k) none (lookup k outputs)
  after_step-last_output i s outputs before after (ok v) go_on later =
      let o = store i (id_of s) v outputs in
      let l = last_output k (suc i) (go_on o).results in
      later o
      ∙ ap (λ x. or_else l x) (lookup-store k i (id_of s) v outputs)
      ∙ or_else-write (str_eq (index_key i) k || str_eq (id_of s) k) l v (lookup k outputs)

  -- After the steps, from the i-th, an output stands under a key just when a step wrote it there or
  -- it stood there before: what a step writes last, in the order of execution, takes the place of
  -- what was there, and nothing is removed.
  pub run_steps-last_output :
      (i : ℕ) (ss : List StepDefinition) (outputs : Outputs) (trace : Trace)
      → lookup k (run_steps t i ss outputs trace).outputs
        ≡ or_else (last_output k i (run_steps t i ss outputs trace).results) (lookup k outputs)
  unfolding run_steps
  run_steps-last_output i [] outputs trace = refl
  run_steps-last_output i (s ∷ ss) outputs trace =
      after_step-last_output i s outputs trace (execute_step t s outputs trace).1
        (execute_step t s outputs trace).0
        (λ o. run_steps t (suc i) ss o (execute_step t s outputs trace).1)
        λ o. run_steps-last_output (suc i) ss o (execute_step t s outputs trace).1
