-- ===== src/Executor/Starting.antt =====
-- What the executor asks of Temporal for a workflow.
use orchestrix_api.Common.{
  String, ◌+++◌, ◌≡◌, refl, ap, sym, ◌∙◌, true, false, Option, none, some, List, [], ◌∷◌, All,
  Bool-cases, inl, inr,
}
use orchestrix_api.Fault.{Error, sentinel, wrapped, Result, ok, err}
use orchestrix_api.Domain.Errors.{workflow_cannot_execute, invalid_definition}
use orchestrix_api.Domain.Workflow.{Workflow, WorkflowDefinition, can_execute, parse_definition}
use orchestrix_api.Engine.Definition.{decimal}
use orchestrix_api.Port.Call.{ExecuteResult}
use orchestrix_api.Executor.{
  Start, Client, start_of, workflow_id_of, with_definition, started, execute,
}

-- The ways in which Execute ends, with the starts that it has asked for.
pub data Ended (c : Client) (queue : String) (w : Workflow) (input : String)
    : Result ExecuteResult → List Start → Type 0 where
  refused :
      can_execute w ≡ false → Ended c queue w input (err (sentinel workflow_cannot_execute)) []
  malformed :
      can_execute w ≡ true
      → parse_definition w ≡ none
      → Ended c queue w input
          (err (wrapped "failed to parse workflow definition" (sentinel invalid_definition)))
          []
  not_started :
      (s : Start) (e : Error)
      → can_execute w ≡ true
      → s.id ≡ workflow_id_of c queue w
      → parse_definition w ≡ some s.definition
      → s.input ≡ input
      → c.execute_workflow s ≡ err e
      → Ended c queue w input (err (wrapped "failed to start workflow" e)) (s ∷ [])
  running :
      (s : Start) (run : ExecuteResult)
      → can_execute w ≡ true
      → s.id ≡ workflow_id_of c queue w
      → parse_definition w ≡ some s.definition
      → s.input ≡ input
      → c.execute_workflow s ≡ ok run
      → Ended c queue w input (ok run) (s ∷ [])

module _ (c : Client) (queue : String) (w : Workflow) (input : String) where
  started-Ended :
      (def : WorkflowDefinition) (r : Result ExecuteResult)
      → can_execute w ≡ true
      → parse_definition w ≡ some def
      → c.execute_workflow (start_of c queue w def input) ≡ r
      → Ended c queue w input (started c queue r) (start_of c queue w def input ∷ [])
  unfolding start_of
  started-Ended def (ok run) can p s = running (start_of c queue w def input) run can refl p refl s
  started-Ended def (err e) can p s = not_started (start_of c queue w def input) e can refl p refl s

  with_definition-Ended :
      (o : Option WorkflowDefinition)
      → can_execute w ≡ true
      → parse_definition w ≡ o
      → Ended c queue w input
          (with_definition c queue w input o).0
          (with_definition c queue w input o).1
  with_definition-Ended none can p = malformed can p
  with_definition-Ended (some def) can p =
      started-Ended def (c.execute_workflow (start_of c queue w def input)) can p refl

  execute-Ended : Ended c queue w input (execute c queue w input).0 (execute c queue w input).1
  unfolding execute
  execute-Ended = elim (Bool-cases (can_execute w)) [
    | inl can ↦ rw can (with_definition-Ended (parse_definition w) can refl)
    | inr cannot ↦ rw cannot (refused cannot)
  ]

  Ended-id :
      {r : Result ExecuteResult} {ss : List Start}
      → Ended c queue w input r ss
      → All (λ s. s.id ≡ workflow_id_of c queue w) ss
  Ended-id (refused n) = tt
  Ended-id (malformed can p) = tt
  Ended-id (not_started s e can i p q f) = (i, tt)
  Ended-id (running s run can i p q f) = (i, tt)

same_id :
    (c : Client) (queue : String) (w w' : Workflow)
    → w.id ≡ w'.id
    → w.version ≡ w'.version
    → workflow_id_of c queue w ≡ workflow_id_of c queue w'
unfolding workflow_id_of
same_id c queue w w' i v =
    ap (λ x. "workflow-" +++ c.uuid_text x +++ "-" +++ decimal w.version) i
    ∙ ap (λ n. "workflow-" +++ c.uuid_text w'.id +++ "-" +++ decimal n) v

-- Execute fails for a workflow that is not active or whose definition does not decode, without asking
-- for a start, and otherwise asks for one start, with the definition and the input, and fails just if
-- that does. Whatever the inputs and the rest of the workflow, every start of one version of a
-- workflow has the same Temporal ID.
pub execute-same_id :
    (c : Client) (queue : String) (w w' : Workflow) (input input' : String)
    → w.id ≡ w'.id
    → w.version ≡ w'.version
    → Ended c queue w input (execute c queue w input).0 (execute c queue w input).1
      × All (λ s. s.id ≡ workflow_id_of c queue w) (execute c queue w input).1
      × All (λ s. s.id ≡ workflow_id_of c queue w) (execute c queue w' input').1
execute-same_id c queue w w' input input' i v = (
  execute-Ended c queue w input,
  Ended-id c queue w input (execute-Ended c queue w input),
  moved (execute c queue w' input').1
      (Ended-id c queue w' input' (execute-Ended c queue w' input')),
)
  where
    moved :
        (ss : List Start)
        → All (λ s. s.id ≡ workflow_id_of c queue w') ss
        → All (λ s. s.id ≡ workflow_id_of c queue w) ss
    moved [] all = tt
    moved (s ∷ ss) (q, all) = (q ∙ sym (same_id c queue w w' i v), moved ss all)
