-- ===== src/Service/Execution/Cancelling.antt =====
-- Which executions Cancel changes, and in which order it calls Temporal and the repository.
use orchestrix_api.Common.{String, ◌≡◌, ◌⊎◌, true, false, Option, none, some, List, [], ◌∷◌, ◌++◌}
use orchestrix_api.Fault.{Error, sentinel, Result, ok, err}
use orchestrix_api.Domain.Errors.{execution_cannot_cancel}
use orchestrix_api.Domain.Values.{Uuid, Time}
use orchestrix_api.Domain.Execution.{Execution, can_cancel, mark_as_cancelled}
use orchestrix_api.Port.Call.{Ports, Call, History, cancel_workflow, update_execution}
use orchestrix_api.Port.After.{After}
use orchestrix_api.Port.Trace.{writes}

-- The calls of Temporal for an execution that has an id there, or has none.
abbrev pub stop_calls : Option String → List Call
stop_calls none = []
stop_calls (some id) = cancel_workflow id true ∷ []

-- What Cancel has written, the newest call first, for each way in which it can end.
pub data Cancelling (e : Execution) : Result (Unit {0}) → List Call → Type 0 where
  refused : can_cancel e ≡ false → Cancelling e (err (sentinel execution_cannot_cancel)) []
  not_stopped :
      (id : String) (x : Error)
      → can_cancel e ≡ true
      → e.temporal_workflow_id ≡ some id
      → Cancelling e (err x) (cancel_workflow id false ∷ [])
  not_recorded :
      (x : Error) (now : Time) (before : List Call)
      → can_cancel e ≡ true
      → before ≡ stop_calls e.temporal_workflow_id
      → Cancelling e (err x) (update_execution (mark_as_cancelled now e) false ∷ before)
  cancelled :
      (now : Time) (before : List Call)
      → can_cancel e ≡ true
      → before ≡ stop_calls e.temporal_workflow_id
      → Cancelling e (ok tt) (update_execution (mark_as_cancelled now e) true ∷ before)

-- How the result and the history of a call relate to the history before it.
abbrev Ends : Ports → Uuid → History → Result (Unit {0}) → History → Type 0
Ends p id h r h' =
    ((e : Error) × (p.executions.find_by_id h id ≡ err e) × (r ≡ err e) × (writes h' ≡ writes h))
    ⊎ ((e : Execution) × (new : List Call) × (p.executions.find_by_id h id ≡ ok e)
        × Cancelling e r new
        × (writes h' ≡ new ++ writes h))
