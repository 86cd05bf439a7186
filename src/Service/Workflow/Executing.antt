-- ===== src/Service/Workflow/Executing.antt =====
-- The runs that Execute starts: what is stored of them, and in which order.
use orchestrix_api.Common.{
  String, ◌+++◌, ◌≢◌, arith, ◌≡◌, refl, ◌⊎◌, inl, inr, Bool, true, false, none, some, List, [], ◌∷◌,
  ◌++◌,
}
use orchestrix_api.Fault.{Error, sentinel, wrapped, Result, ok, err}
use orchestrix_api.Domain.Errors.{workflow_cannot_execute}
use orchestrix_api.Domain.Values.{Uuid, Time, parsed}
use orchestrix_api.Domain.Workflow.{Workflow, active, can_execute}
use orchestrix_api.Domain.Execution.{
  Execution, pending, running, failed, mark_as_running, mark_as_failed,
}
use orchestrix_api.Port.Call.{
  Ports, Call, History, ExecuteResult, read, save_execution, update_execution, start_workflow,
}
use orchestrix_api.Port.After.{
  After, After-pure, After-raise, After-if, After-gets-bind, After-ask-bind,
  After-attempt-write-bind, After-map_error-write-bind, After-ignore-write-bind,
}
use orchestrix_api.Port.Trace.{writes}
use orchestrix_api.Service.Audit.{After-any_audit-bind}
use orchestrix_api.Service.Workflow.{execute, new_execution}

-- The execution as Execute writes it after the answer of Temporal: failed with the text of the error,
-- or running with the ids that Temporal gave, at the reading of the clock.
abbrev pub failed_of : Ports → Error → History → Execution → Execution
failed_of p x h e = record e {
  status = failed;
  error = some (p.host.error_text x);
  completed_at = some (p.host.now h 0);
}

abbrev pub running_of : Ports → ExecuteResult → History → Execution → Execution
running_of p r h e = record e {
  temporal_workflow_id = some r.temporal_workflow_id;
  temporal_run_id = some r.temporal_run_id;
  status = running;
  started_at = some (p.host.now h 0);
}

abbrev pub started_on : Workflow → String → Execution → History → History
started_on w input e h = start_workflow w input true ∷ save_execution e true ∷ h

-- What Execute has written for a workflow that was found, the newest call first, for each way in
-- which it can end, and the answers of the repository and of Temporal that lead there. `e` is the
-- pending execution of the workflow, and `h` the calls before it is saved.
pub data Executing (p : Ports) (w : Workflow) (input : String) (e : Execution) (h : History)
    : Result Execution → List Call → Type 0 where
  refused : w.status ≢ active → Executing p w input e h (err (sentinel workflow_cannot_execute)) []
  not_saved :
      (x : Error)
      → w.status ≡ active
      → p.executions.save h e ≡ err x
      → Executing p w input e h
          (err (wrapped "failed to save execution" x))
          (save_execution e false ∷ [])
  not_started :
      (x : Error) (done : Bool)
      → w.status ≡ active
      → p.executor.execute (save_execution e true ∷ h) w input ≡ err x
      → Executing p w input e h (err (wrapped "failed to start workflow" x)) (
          update_execution
            (failed_of p x (start_workflow w input false ∷ save_execution e true ∷ h) e)
            done
          ∷ start_workflow w input false
          ∷ save_execution e true
          ∷ [])
  not_recorded :
      (x : Error) (r : ExecuteResult)
      → w.status ≡ active
      → p.executor.execute (save_execution e true ∷ h) w input ≡ ok r
      → p.executions.update (started_on w input e h) (running_of p r (started_on w input e h) e)
        ≡ err x
      → Executing p w input e h (err (wrapped "failed to update execution" x)) (
          update_execution (running_of p r (started_on w input e h) e) false
          ∷ start_workflow w input true
          ∷ save_execution e true
          ∷ [])
  started :
      (r : ExecuteResult)
      → w.status ≡ active
      → p.executor.execute (save_execution e true ∷ h) w input ≡ ok r
      → p.executions.update (started_on w input e h) (running_of p r (started_on w input e h) e)
        ≡ ok tt
      → Executing p w input e h (ok (running_of p r (started_on w input e h) e)) (
          update_execution (running_of p r (started_on w input e h) e) true
          ∷ start_workflow w input true
          ∷ save_execution e true
          ∷ [])

-- A pending execution of a workflow for a user on an input, with no id in Temporal yet.
pub record IsPendingOf (user input : String) (w : Workflow) (e : Execution) : Type 0 where
  pub status : e.status ≡ pending
  pub workflow : e.workflow_id ≡ w.id
  pub tenant : e.tenant_id ≡ w.tenant_id
  pub unstarted : e.temporal_workflow_id ≡ none
  pub asked : e.input ≡ parsed input
  pub triggered_by : e.triggered_by ≡ some ("user:" +++ user)

-- Only an active workflow can be executed.
can_execute-active : (w : Workflow) → can_execute w ≡ true → w.status ≡ active
unfolding can_execute
can_execute-active w q = ground arith

can_execute-inactive : (w : Workflow) → can_execute w ≡ false → w.status ≢ active
unfolding can_execute
can_execute-inactive w q e = ground arith

abbrev Ends : Ports → Uuid → String → String → History → Result Execution → History → Type 0
Ends p id user input h r h' =
    ((x : Error) × (p.workflows.find_by_id h id ≡ err x) × (r ≡ err x) × (writes h' ≡ writes h))
    ⊎ ((w : Workflow) × (e : Execution) × (new : List Call) × (p.workflows.find_by_id h id ≡ ok w)
        × IsPendingOf user input w e
        × Executing p w input e (read "workflow by id" ∷ h) r new
        × (writes h' ≡ new ++ writes h))

execute-After :
    (p : Ports) (id : Uuid) (user input : String) (h : History)
    → After (Ends p id user input h) (execute p id user input) h
unfolding execute mark_as_running mark_as_failed
execute-After p id user input h =
    After-ask-bind _ _ _ _ (λ x q. inl (x, q, refl, refl))
      λ w found.
        After-if _ _ _ _
          (λ can. After-gets-bind _ _ _ (
            After-gets-bind _ _ _ (
              After-map_error-write-bind _ _ _ _ _
                (λ x q.
                  inr (w, _, _, found, pends w, not_saved x (can_execute-active w can) q, refl))
                λ _ _.
                  After-attempt-write-bind _ _ _ _
                    (λ x q. After-gets-bind _ _ _ (
                      After-ignore-write-bind _ _ _ _ λ done. After-raise _ _ (
                        inr (
                          w,
                          _,
                          _,
                          found,
                          pends w,
                          not_started x done (can_execute-active w can) q,
                          refl,
                        ))))
                    (λ r q. After-gets-bind _ _ _ (
                      After-map_error-write-bind _ _ _ _ _
                        (λ x u. inr (
                          w,
                          _,
                          _,
                          found,
                          pends w,
                          not_recorded x r (can_execute-active w can) q u,
                          refl,
                        ))
                        λ _ u.
                          After-any_audit-bind p _ _ _ _ _ _ _ _ _ _
                            (λ log done. After-pure _ _ (
                              inr (
                                w,
                                _,
                                _,
                                found,
                                pends w,
                                started r (can_execute-active w can) q u,
                                refl,
                              )))
                            (After-pure _ _ (
                              inr (
                                w,
                                _,
                                _,
                                found,
                                pends w,
                                started r (can_execute-active w can) q u,
                                refl,
                              ))))))))
          (λ cannot. After-raise _ _ (
            inr (
              w,
              new_execution 0 0 0 user input w,
              [],
              found,
              pends w,
              refused (can_execute-inactive w cannot),
              refl,
            )))
  where
    pends :
        {i : Uuid} {t : Time} {u : Uuid} (w : Workflow)
        → IsPendingOf user input w (new_execution i t u user input w)
    pends w = record {
      status = refl;
      workflow = refl;
      tenant = refl;
      unstarted = refl;
      asked = refl;
      triggered_by = refl;
    }

-- Execute of a workflow ends in one of the five ways after a repository that found it. So nothing is
-- written for a workflow that is not active; Temporal is asked only for an active one and after a
-- pending execution of it for the user was saved; an execution that is returned is running, has the ids that Temporal
-- gave and was recorded; and an error of Temporal is returned and marks the saved execution as failed
-- with its text. Where nothing is found, nothing is written.
pub execute_lem :
    (p : Ports) (id : Uuid) (user input : String) (h : History)
    → ((x : Error) × (p.workflows.find_by_id h id ≡ err x)
        × ((execute p id user input h).0 ≡ err x)
        × (writes (execute p id user input h).1 ≡ writes h))
      ⊎ ((w : Workflow) × (e : Execution) × (new : List Call) × (p.workflows.find_by_id h id ≡ ok w)
          × IsPendingOf user input w e
          × Executing p w input e (read "workflow by id" ∷ h) (execute p id user input h).0 new
          × (writes (execute p id user input h).1 ≡ new ++ writes h))
execute_lem p id user input h = (execute-After p id user input h).at
