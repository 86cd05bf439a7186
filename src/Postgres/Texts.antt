-- ===== src/Postgres/Texts.antt =====
-- The text types of the entities as the columns keep them: `string(status)`, and the conversion back in
-- each toDomain.
use orchestrix_api.Common.{
  String, ◌≡◌, refl, sym, List, [], ◌∷◌, All, arith, str_eq, eq_iff, if◌then◌else◌, if_elim,
}
use orchestrix_api.Domain.Alert.{AlertSeverity, AlertStatus}
use orchestrix_api.Domain.Execution.{ExecutionStatus}
use orchestrix_api.Domain.Workflow.{WorkflowStatus}

-- `Status(text)`: the constant that is spelled so, or else no constant.
module _ {A : Type 0} (spelling : A → String) (unknown : String → A) where
  unfoldable pub of_text : List A → String → A
  of_text [] s = unknown s
  of_text (x ∷ xs) s = if str_eq s (spelling x) then x else of_text xs s

  of_text-roundtrip :
      (xs : List A) (s : String) → spelling (unknown s) ≡ s → spelling (of_text xs s) ≡ s
  unfolding of_text
  of_text-roundtrip [] s q = q
  of_text-roundtrip (x ∷ xs) s q =
      if_elim (λ a. spelling a ≡ s) (str_eq s (spelling x)) _ _
        (λ e. sym ((eq_iff s (spelling x)).0 e)) λ _. of_text-roundtrip xs s q

unfoldable pub severity_text : AlertSeverity → String
severity_text AlertSeverity.critical = "critical"
severity_text AlertSeverity.high = "high"
severity_text AlertSeverity.warning = "warning"
severity_text AlertSeverity.medium = "medium"
severity_text AlertSeverity.low = "low"
severity_text AlertSeverity.info = "info"
severity_text (AlertSeverity.unknown s) = s

abbrev pub severities : List AlertSeverity
severities =
    AlertSeverity.critical ∷ AlertSeverity.high ∷ AlertSeverity.warning ∷ AlertSeverity.medium
    ∷ AlertSeverity.low ∷ AlertSeverity.info ∷ []

unfoldable pub severity_of : String → AlertSeverity
unfolding of_text severity_text
severity_of s = of_text severity_text AlertSeverity.unknown severities s

unfoldable pub alert_status_text : AlertStatus → String
alert_status_text AlertStatus.opened = "open"
alert_status_text AlertStatus.triggered = "triggered"
alert_status_text AlertStatus.acknowledged = "acknowledged"
alert_status_text AlertStatus.resolved = "resolved"
alert_status_text (AlertStatus.unknown s) = s

abbrev pub alert_statuses : List AlertStatus
alert_statuses =
    AlertStatus.opened ∷ AlertStatus.triggered ∷ AlertStatus.acknowledged ∷ AlertStatus.resolved
    ∷ []

unfoldable pub alert_status_of : String → AlertStatus
unfolding of_text alert_status_text
alert_status_of s = of_text alert_status_text AlertStatus.unknown alert_statuses s

unfoldable pub execution_status_text : ExecutionStatus → String
execution_status_text ExecutionStatus.pending = "pending"
execution_status_text ExecutionStatus.running = "running"
execution_status_text ExecutionStatus.completed = "completed"
execution_status_text ExecutionStatus.failed = "failed"
execution_status_text ExecutionStatus.cancelled = "cancelled"
execution_status_text (ExecutionStatus.unknown s) = s

abbrev pub execution_statuses : List ExecutionStatus
execution_statuses =
    ExecutionStatus.pending ∷ ExecutionStatus.running ∷ ExecutionStatus.completed
    ∷ ExecutionStatus.failed ∷ ExecutionStatus.cancelled ∷ []

unfoldable pub execution_status_of : String → ExecutionStatus
unfolding of_text execution_status_text
execution_status_of s = of_text execution_status_text ExecutionStatus.unknown execution_statuses s

unfoldable pub workflow_status_text : WorkflowStatus → String
workflow_status_text WorkflowStatus.draft = "draft"
workflow_status_text WorkflowStatus.active = "active"
workflow_status_text WorkflowStatus.inactive = "inactive"
workflow_status_text (WorkflowStatus.unknown s) = s

abbrev pub workflow_statuses : List WorkflowStatus
workflow_statuses = WorkflowStatus.draft ∷ WorkflowStatus.active ∷ WorkflowStatus.inactive ∷ []

unfoldable pub workflow_status_of : String → WorkflowStatus
unfolding of_text workflow_status_text
workflow_status_of s = of_text workflow_status_text WorkflowStatus.unknown workflow_statuses s

-- Every text of a column survives the way into an entity and back: the severity of an alert, and the
-- statuses of alerts, executions and workflows, also where they are none of the constants.
pub texts_roundtrip :
    (s : String)
    → (severity_text (severity_of s) ≡ s)
      × (alert_status_text (alert_status_of s) ≡ s)
      × (execution_status_text (execution_status_of s) ≡ s)
      × (workflow_status_text (workflow_status_of s) ≡ s)
unfolding severity_text alert_status_text execution_status_text workflow_status_text severity_of
    alert_status_of execution_status_of workflow_status_of
texts_roundtrip s = (
  of_text-roundtrip severity_text AlertSeverity.unknown severities s refl,
  of_text-roundtrip alert_status_text AlertStatus.unknown alert_statuses s refl,
  of_text-roundtrip execution_status_text ExecutionStatus.unknown execution_statuses s refl,
  of_text-roundtrip workflow_status_text WorkflowStatus.unknown workflow_statuses s refl,
)

-- Every constant survives the way into a column and back.
pub constants_roundtrip :
    All (λ x. severity_of (severity_text x) ≡ x) severities
    × All (λ x. alert_status_of (alert_status_text x) ≡ x) alert_statuses
    × All (λ x. execution_status_of (execution_status_text x) ≡ x) execution_statuses
    × All (λ x. workflow_status_of (workflow_status_text x) ≡ x) workflow_statuses
unfolding of_text severity_text alert_status_text execution_status_text workflow_status_text
    severity_of alert_status_of execution_status_of workflow_status_of
constants_roundtrip = ground arith
