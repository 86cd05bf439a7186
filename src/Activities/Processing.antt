-- ===== src/Activities/Processing.antt =====
-- internal/workflow/process.go: ProcessWorkflow, which calls the activities in a fixed order.
use orchestrix_api.Common.{String, ◌≡◌, refl, List, [], ◌∷◌, ℤ}
use orchestrix_api.Fault.{Error, Result, ok, err}
use orchestrix_api.Domain.Values.{Time}
use orchestrix_api.Engine.Dynamic.{milliseconds, unix}
use orchestrix_api.Activities.{ValidateResult, ProcessResult}

pub record ProcessWorkflowInput : Type 0 where
  pub id : String
  pub name : String
  pub params : List (String × String)

pub record ProcessWorkflowOutput : Type 0 where
  pub id : String
  pub status : String
  pub result : String
  pub duration : ℤ
  pub timestamp : ℤ

-- The activities that a run has started, with the options that tell them apart: the notification is
-- started with options of its own and never waited for.
pub data Started : Type 0 where
  validate : String → String → Started
  process : String → List (String × String) → Started
  notify : String → String → String → Started

-- What Temporal answers: the clock of the workflow, by what has been started, and the end of an
-- activity after its retries.
pub record Calls : Type 0 where
  pub now : List Started → Time
  pub validate : String → String → Result ValidateResult
  pub process : String → List (String × String) → Result ProcessResult

module _ (c : Calls) (i : ProcessWorkflowInput) where
  -- From step 3 on: the newest activity stands first.
  abbrev pub notified : ProcessResult → List Started → Result ProcessWorkflowOutput × List Started
  notified r before =
      let trace : List Started = notify i.id "completed" r.message ∷ before in
      (
        ok (record {
          id = i.id;
          status = "completed";
          result = r.message;
          duration = milliseconds (c.now []) (c.now trace);
          timestamp = unix (c.now trace);
        }),
        trace,
      )

  abbrev pub processed :
      Result ProcessResult → List Started → Result ProcessWorkflowOutput × List Started
  processed (err e) trace = (err e, trace)
  processed (ok r) trace = notified r trace

  abbrev pub validated :
      Result ValidateResult → List Started → Result ProcessWorkflowOutput × List Started
  validated (err e) trace = (err e, trace)
  validated (ok v) trace = processed (c.process i.id i.params) (process i.id i.params ∷ trace)

  unfoldable pub process_workflow : Result ProcessWorkflowOutput × List Started
  process_workflow = validated (c.validate i.id i.name) (validate i.id i.name ∷ [])

-- How a run ends: with the error of the first activity that fails, and none after it, or completed.
pub data Ended (c : Calls) (i : ProcessWorkflowInput)
    : Result ProcessWorkflowOutput → List Started → Type 0 where
  not_validated :
      (e : Error) → c.validate i.id i.name ≡ err e → Ended c i (err e) (validate i.id i.name ∷ [])
  not_processed :
      (v : ValidateResult) (e : Error)
      → c.validate i.id i.name ≡ ok v
      → c.process i.id i.params ≡ err e
      → Ended c i (err e) (process i.id i.params ∷ validate i.id i.name ∷ [])
  completed :
      (v : ValidateResult) (r : ProcessResult) (out : ProcessWorkflowOutput)
      → c.validate i.id i.name ≡ ok v
      → c.process i.id i.params ≡ ok r
      → out.id ≡ i.id
      → out.status ≡ "completed"
      → out.result ≡ r.message
      → Ended c i
          (ok out)
          (notify i.id "completed" r.message ∷ process i.id i.params ∷ validate i.id i.name ∷ [])

-- A run of the workflow fails with the error of the validation or of the processing, which it starts
-- in this order, the second only after the first has returned. Otherwise it completes with the
-- message of the processing, and has started one notification with it; so it completes also where
-- the validation returned that the input is invalid, and whatever the processing says of its success.
pub process_workflow-Ended :
    (c : Calls) (i : ProcessWorkflowInput)
    → Ended c i (process_workflow c i).0 (process_workflow c i).1
unfolding process_workflow
process_workflow-Ended c i = first (c.validate i.id i.name) refl
  where
    second :
        (v : ValidateResult) (r : Result ProcessResult)
        → c.validate i.id i.name ≡ ok v
        → c.process i.id i.params ≡ r
        → Ended c i
            (processed c i r (process i.id i.params ∷ validate i.id i.name ∷ [])).0
            (processed c i r (process i.id i.params ∷ validate i.id i.name ∷ [])).1
    second v (err e) p q = not_processed v e p q
    second v (ok r) p q = completed v r _ p q refl refl refl

    first :
        (r : Result ValidateResult)
        → c.validate i.id i.name ≡ r
        → Ended c i
            (validated c i r (validate i.id i.name ∷ [])).0
            (validated c i r (validate i.id i.name ∷ [])).1
    first (err e) p = not_validated e p
    first (ok v) p = second v (c.process i.id i.params) p refl
