-- ===== src/Http/Guarding.antt =====
-- Who gets through the handlers, and how the replies follow the services.
use orchestrix_api.Common.{
  String, ◌≡◌, refl, ap, sym, Bool, true, false, Option, none, some, List, [], ◌∷◌, All, ℤ, leb,
  ltb, ◌&&◌, if_elim, subst,
}
use orchestrix_api.Fault.{Error, Result, ok, err, is_error}
use orchestrix_api.Domain.Values.{Uuid}
use orchestrix_api.Domain.Alert.{Alert}
use orchestrix_api.Domain.Execution.{Execution}
use orchestrix_api.Domain.Workflow.{Workflow}
use orchestrix_api.Engine.Definition.{Fields}
use orchestrix_api.Auth.{User}
use orchestrix_api.Port.Call.{Ports, History}
use orchestrix_api.Port.Action.{Action, accepted}
use orchestrix_api.Service.Alert as AlertService
use orchestrix_api.Service.Execution as ExecutionService
use orchestrix_api.Service.Workflow as WorkflowService
use orchestrix_api.Http.Handling.{
  Params, Handler, Reply, refused, replied, listed, no_content, with_user, with_parsed, with_id,
  with_body, serve, list_with, Case, refuse, reply_to, case, is_alert_not_found,
  is_alert_rule_not_found, is_audit_log_not_found, is_alert_already_acknowledged,
  is_alert_already_resolved, is_execution_not_found, is_execution_cannot_cancel,
  is_workflow_not_found, is_workflow_cannot_execute,
}
use orchestrix_api.Http.Alerts as Alerts
use orchestrix_api.Http.Alerts.{CreateAlertRequest}
use orchestrix_api.Http.Executions as Executions
use orchestrix_api.Http.Workflows as Workflows
use orchestrix_api.Http.Rules as Rules
use orchestrix_api.Http.Rules.{RuleCodec, CreateAlertRuleRequest, UpdateAlertRuleRequest}
use orchestrix_api.Http.AuditLogs as AuditLogs
use orchestrix_api.Domain.AlertRule.{AlertRule}
use orchestrix_api.Domain.Audit.{AuditLog}
use orchestrix_api.Service.AlertRule as RuleService
use orchestrix_api.Service.Audit as AuditService
use orchestrix_api.Http.Workflows.{
  Codec, CreateWorkflowRequest, UpdateWorkflowRequest, update_input,
}

-- A request without a user.
abbrev pub anonymous : String → ℤ → ℤ → Params
anonymous id page limit = record { user = none; id = id; page = page; limit = limit }

-- The reply to it, before any call.
abbrev pub Unauthorized : {A : Type 0} → Handler A → Type 0
Unauthorized {A} f = (h : History) → f h ≡ (refused 401 "unauthorized", h)

-- Every handler of alerts, executions, workflows, rules and audit logs refuses a request without a user with a 401 and
-- calls no adapter.
pub anonymous-Unauthorized :
    (p : Ports) (c : Codec) (id : String) (page limit : ℤ) (alert : Option CreateAlertRequest)
    (workflow : Option CreateWorkflowRequest) (update : Option UpdateWorkflowRequest)
    (input : Option (Option Fields)) (rc : RuleCodec) (rule : Option CreateAlertRuleRequest)
    (rule_update : Option UpdateAlertRuleRequest)
    → Unauthorized (Alerts.list p (anonymous id page limit))
      × Unauthorized (Alerts.get p (anonymous id page limit))
      × Unauthorized (Alerts.create p alert (anonymous id page limit))
      × Unauthorized (Alerts.acknowledge p (anonymous id page limit))
      × Unauthorized (Alerts.resolve p (anonymous id page limit))
      × Unauthorized (Executions.list p (anonymous id page limit))
      × Unauthorized (Executions.get p (anonymous id page limit))
      × Unauthorized (Executions.cancel p (anonymous id page limit))
      × Unauthorized (Workflows.list p c (anonymous id page limit))
      × Unauthorized (Workflows.get p c (anonymous id page limit))
      × Unauthorized (Workflows.create p c workflow (anonymous id page limit))
      × Unauthorized (Workflows.update p c update (anonymous id page limit))
      × Unauthorized (Workflows.delete p c (anonymous id page limit))
      × Unauthorized (Workflows.execute p c input (anonymous id page limit))
      × Unauthorized (Workflows.list_executions p c (anonymous id page limit))
      × Unauthorized (Rules.list p rc (anonymous id page limit))
      × Unauthorized (Rules.get p rc (anonymous id page limit))
      × Unauthorized (Rules.create p rc rule (anonymous id page limit))
      × Unauthorized (Rules.update p rc rule_update (anonymous id page limit))
      × Unauthorized (Rules.delete p rc (anonymous id page limit))
      × Unauthorized (AuditLogs.list p (anonymous id page limit))
      × Unauthorized (AuditLogs.get p (anonymous id page limit))
unfolding Alerts.list Alerts.get Alerts.create Alerts.acknowledge Alerts.resolve Executions.list
    Executions.get Executions.cancel Workflows.list Workflows.get Workflows.create Workflows.update
    Workflows.delete Workflows.execute Workflows.list_executions Rules.list Rules.get Rules.create
    Rules.update Rules.delete AuditLogs.list AuditLogs.get with_user list_with
anonymous-Unauthorized p c id page limit alert workflow update input rc rule rule_update = (
  λ h. refl,
  λ h. refl,
  λ h. refl,
  λ h. refl,
  λ h. refl,
  λ h. refl,
  λ h. refl,
  λ h. refl,
  λ h. refl,
  λ h. refl,
  λ h. refl,
  λ h. refl,
  λ h. refl,
  λ h. refl,
  λ h. refl,
  λ h. refl,
  λ h. refl,
  λ h. refl,
  λ h. refl,
  λ h. refl,
  λ h. refl,
  λ h. refl,
)

-- A reply with a status from 200 to 299.
abbrev pub is_success : {A : Type 0} → Reply A → Bool
is_success (refused status message) = leb 200 status && ltb status 300
is_success (replied status a) = leb 200 status && ltb status 300
is_success (listed items total page limit) = true
is_success no_content = true

refuse-is_success :
    (A : Type 0) (cases : List Case) (message : String) (e : Error)
    → All (λ c. (leb 200 c.status && ltb c.status 300) ≡ false) cases
    → is_success (refuse {A = A} cases message e) ≡ false
unfolding refuse
refuse-is_success A [] message e all = refl
refuse-is_success A (c ∷ cs) message e (q, all) =
    if_elim (λ r. is_success {A = A} r ≡ false) (is_error c.target e) _ _ (λ _. q)
      λ _. refuse-is_success A cs message e all

-- A handler follows a method of a service: it makes the same calls, and its reply is a success exactly
-- if the method returns no error.
abbrev pub Follows : {A B : Type 0} → Handler A → Action B → History → Type 0
Follows f action h = (is_success (f h).0 ≡ accepted (action h).0) × ((f h).1 ≡ (action h).1)

reply_to-is_success :
    {A B : Type 0} (cases : List Case) (message : String) (f : B → Reply A) (r : Result B)
    → All (λ c. (leb 200 c.status && ltb c.status 300) ≡ false) cases
    → ((b : B) → is_success (f b) ≡ true)
    → is_success (reply_to cases message f r) ≡ accepted r
reply_to-is_success cases message f (ok b) all good = good b
reply_to-is_success cases message f (err e) all good = refuse-is_success _ cases message e all

serve-Follows :
    {A B : Type 0} (cases : List Case) (message : String) (f : B → Reply A) (action : Action B)
    (h : History)
    → All (λ c. (leb 200 c.status && ltb c.status 300) ≡ false) cases
    → ((b : B) → is_success (f b) ≡ true)
    → Follows (serve cases message f action) action h
unfolding serve
serve-Follows cases message f action h all good =
    (reply_to-is_success cases message f (action h).0 all good, refl)

-- The same behind the id of the URL.
with_id-Follows :
    (A : Type 0) {B : Type 0} (p : Ports) (s : String) (id : Uuid) (cases : List Case)
    (message : String) (f : B → Reply A) (action : Uuid → Action B) (h : History)
    → p.host.parse_uuid s ≡ (id, none)
    → All (λ c. (leb 200 c.status && ltb c.status 300) ≡ false) cases
    → ((b : B) → is_success (f b) ≡ true)
    → Follows (with_id p s λ i. serve cases message f (action i)) (action id) h
unfolding with_id
with_id-Follows A p s id cases message f action h e all good =
    subst
      (λ (r : Reply A × History).
        (is_success r.0 ≡ accepted (action id h).0) × (r.1 ≡ (action id h).1))
      (ap (λ x. with_parsed x (λ i. serve cases message f (action i)) h) (sym e))
      (serve-Follows cases message f (action id) h all good)

-- The handlers of one alert, execution, workflow, rule or audit log make the calls of their service and reply with a
-- success exactly if it returns no error, for a user of whatever tenant: none compares the tenant of
-- the user with that of the entity. Conditions: the id of the URL is a UUID, and the body decodes.
pub handlers-Follows :
    (p : Ports) (c : Codec) (rc : RuleCodec) (u : User) (s : String) (page limit : ℤ) (id : Uuid)
    (update : UpdateWorkflowRequest) (rule_update : UpdateAlertRuleRequest) (input : Option Fields)
    (h : History)
    → p.host.parse_uuid s ≡ (id, none)
    → let q : Params = record { user = some u; id = s; page = page; limit = limit } in
      Follows (Alerts.get p q) (AlertService.get_by_id p id) h
      × Follows
          (Alerts.acknowledge p q)
          (AlertService.acknowledge p id (p.host.parse_uuid u.id).0)
          h
      × Follows (Alerts.resolve p q) (AlertService.resolve p id (p.host.parse_uuid u.id).0) h
      × Follows (Executions.get p q) (ExecutionService.get_by_id p id) h
      × Follows (Executions.cancel p q) (ExecutionService.cancel p id) h
      × Follows (Workflows.get p c q) (WorkflowService.get_by_id p id) h
      × Follows
          (Workflows.update p c (some update) q)
          (WorkflowService.update p id (update_input c update))
          h
      × Follows (Workflows.delete p c q) (WorkflowService.delete p id) h
      × Follows
          (Workflows.execute p c (some input) q)
          (WorkflowService.execute p id u.id (c.marshal_input input))
          h
      × Follows (Rules.get p rc q) (RuleService.get_by_id p id) h
      × Follows
          (Rules.update p rc (some rule_update) q)
          (RuleService.update p id (Rules.update_input rc rule_update))
          h
      × Follows (Rules.delete p rc q) (RuleService.delete p id) h
      × Follows (AuditLogs.get p q) (AuditService.get_by_id p id) h
unfolding Alerts.get Alerts.acknowledge Alerts.resolve Executions.get Executions.cancel
    Workflows.get Workflows.update Workflows.delete Workflows.execute with_user with_body Rules.get
    Rules.update Rules.delete AuditLogs.get
handlers-Follows p c rc u s page limit id update rule_update input h e = (
  with_id-Follows Alert p s id (case is_alert_not_found 404 "alert not found" ∷ [])
      "failed to get alert" (λ a. replied 200 a) (λ i. AlertService.get_by_id p i) h e (refl, tt)
      λ b. refl,
  with_id-Follows Alert p s id
      (case is_alert_not_found 404 "alert not found"
        ∷ case is_alert_already_acknowledged 400 "alert already acknowledged"
        ∷ [])
      "failed to acknowledge alert" (λ a. replied 200 a)
      (λ i. AlertService.acknowledge p i (p.host.parse_uuid u.id).0) h e (refl, (refl, tt))
      λ b. refl,
  with_id-Follows Alert p s id
      (case is_alert_not_found 404 "alert not found"
        ∷ case is_alert_already_resolved 400 "alert already resolved"
        ∷ [])
      "failed to resolve alert" (λ a. replied 200 a)
      (λ i. AlertService.resolve p i (p.host.parse_uuid u.id).0) h e (refl, (refl, tt)) λ b. refl,
  with_id-Follows Execution p s id (case is_execution_not_found 404 "execution not found" ∷ [])
      "failed to get execution" (λ a. replied 200 a) (λ i. ExecutionService.get_by_id p i) h e
      (refl, tt) λ b. refl,
  with_id-Follows Execution p s id
      (case is_execution_not_found 404 "execution not found"
        ∷ case is_execution_cannot_cancel 400 "execution cannot be cancelled"
        ∷ [])
      "failed to cancel execution" (λ a. no_content) (λ i. ExecutionService.cancel p i) h e
      (refl, (refl, tt)) λ b. refl,
  with_id-Follows Workflow p s id (case is_workflow_not_found 404 "workflow not found" ∷ [])
      "failed to get workflow" (λ a. replied 200 a) (λ i. WorkflowService.get_by_id p i) h e
      (refl, tt) λ b. refl,
  with_id-Follows Workflow p s id (case is_workflow_not_found 404 "workflow not found" ∷ [])
      "failed to update workflow" (λ a. replied 200 a)
      (λ i. WorkflowService.update p i (update_input c update)) h e (refl, tt) λ b. refl,
  with_id-Follows Workflow p s id (case is_workflow_not_found 404 "workflow not found" ∷ [])
      "failed to delete workflow" (λ a. no_content) (λ i. WorkflowService.delete p i) h e (refl, tt)
      λ b. refl,
  with_id-Follows Execution p s id
      (case is_workflow_not_found 404 "workflow not found"
        ∷ case is_workflow_cannot_execute 400 "workflow cannot be executed"
        ∷ [])
      "failed to execute workflow" (λ a. replied 202 a)
      (λ i. WorkflowService.execute p i u.id (c.marshal_input input)) h e (refl, (refl, tt))
      λ b. refl,
  with_id-Follows AlertRule p s id (case is_alert_rule_not_found 404 "alert rule not found" ∷ [])
      "failed to get alert rule" (λ a. replied 200 a) (λ i. RuleService.get_by_id p i) h e
      (refl, tt) λ b. refl,
  with_id-Follows AlertRule p s id (case is_alert_rule_not_found 404 "alert rule not found" ∷ [])
      "failed to update alert rule" (λ a. replied 200 a)
      (λ i. RuleService.update p i (Rules.update_input rc rule_update)) h e (refl, tt) λ b. refl,
  with_id-Follows AlertRule p s id (case is_alert_rule_not_found 404 "alert rule not found" ∷ [])
      "failed to delete alert rule" (λ a. no_content) (λ i. RuleService.delete p i) h e (refl, tt)
      λ b. refl,
  with_id-Follows AuditLog p s id (case is_audit_log_not_found 404 "audit log not found" ∷ [])
      "failed to get audit log" (λ a. replied 200 a) (λ i. AuditService.get_by_id p i) h e
      (refl, tt) λ b. refl,
)
