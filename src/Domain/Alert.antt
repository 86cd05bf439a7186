-- ===== src/Domain/Alert.antt =====
-- internal/core/domain/alert.go. `now` is the reading of `time.Now()` in the method.
pub mod Lifecycle
use orchestrix_api.Common.{String, Bool, true, false, Option, none, some, if◌then◌else◌}
use orchestrix_api.Domain.Errors.{DomainError, alert_already_acknowledged, alert_already_resolved}
use orchestrix_api.Domain.Values.{Uuid, Time, Raw}

pub data AlertSeverity : Type 0 where
  critical high warning medium low info : AlertSeverity
  unknown : String → AlertSeverity

-- `opened` is the source's "open".
pub data AlertStatus : Type 0 where
  opened triggered acknowledged resolved : AlertStatus
  unknown : String → AlertStatus

pub record Alert : Type 0 where
  pub id : Uuid
  pub tenant_id : Uuid
  pub workflow_id : Option Uuid
  pub execution_id : Option Uuid
  pub severity : AlertSeverity
  pub title : String
  pub message : Option String
  pub status : AlertStatus
  pub acknowledged_at : Option Time
  pub acknowledged_by : Option Uuid
  pub resolved_at : Option Time
  pub resolved_by : Option Uuid
  pub created_at : Time
  pub triggered_by_rule_id : Option Uuid
  pub triggered_workflow_execution_id : Option Uuid
  pub source : Option String
  pub metadata : Raw String

abbrev acknowledgeable : AlertStatus → Bool
acknowledgeable opened = true
acknowledgeable triggered = true
acknowledgeable _ = false

abbrev resolvable : AlertStatus → Bool
resolvable opened = true
resolvable triggered = true
resolvable acknowledged = true
resolvable _ = false

unfoldable pub can_acknowledge : Alert → Bool
can_acknowledge a = acknowledgeable a.status

unfoldable pub can_resolve : Alert → Bool
can_resolve a = resolvable a.status

-- The error, or none for nil, and the alert afterwards.
unfoldable pub acknowledge : Time → Uuid → Alert → Option DomainError × Alert
unfolding can_acknowledge
acknowledge now user_id a =
    if can_acknowledge a
    then (
      none,
      record a {
        status = acknowledged;
        acknowledged_at = some now;
        acknowledged_by = some user_id;
      },
    )
    else (some alert_already_acknowledged, a)

unfoldable pub resolve : Time → Uuid → Alert → Option DomainError × Alert
unfolding can_resolve
resolve now user_id a =
    if can_resolve a
    then (none, record a { status = resolved; resolved_at = some now; resolved_by = some user_id })
    else (some alert_already_resolved, a)
