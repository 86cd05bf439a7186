-- ===== src/Domain/Audit.antt =====
-- internal/core/domain/audit.go. `json.Marshal` of an entity stands as the entity itself: the log
-- keeps what it was given. It is nothing where `json.Marshal` fails, since the error is dropped: an
-- entity with a `json.RawMessage` that is no JSON does not marshal, while JSON of any shape does.
use orchestrix_api.Common.{String, Bool, true, false, Option, none, some, ◌||◌, if◌then◌else◌}
use orchestrix_api.Domain.Values.{Uuid, Time, Raw, malformed}
use orchestrix_api.Domain.Workflow.{Workflow}
use orchestrix_api.Domain.Execution.{Execution}
use orchestrix_api.Domain.Alert.{Alert}
use orchestrix_api.Domain.AlertRule.{AlertRule}

-- The constants of the three groups. `AuditEventWorkflowCreated` is `workflow_created`.
pub data AuditEvent : Type 0 where
  workflow_created workflow_updated workflow_deleted workflow_executed : AuditEvent
  alert_created alert_acknowledged alert_resolved : AuditEvent
  alert_rule_created alert_rule_updated alert_rule_deleted : AuditEvent

pub data ResourceType : Type 0 where
  workflow execution alert alert_rule : ResourceType

pub data AuditAction : Type 0 where
  create update delete execute acknowledge resolve : AuditAction

-- What the services pass for an old or a new value.
pub data Entity : Type 0 where
  of_workflow : Workflow → Entity
  of_execution : Execution → Entity
  of_alert : Alert → Entity
  of_alert_rule : AlertRule → Entity

pub record AuditLog : Type 0 where
  pub id : Uuid
  pub tenant_id : Uuid
  pub user_id : Option Uuid
  pub event_type : AuditEvent
  pub resource_type : ResourceType
  pub resource_id : Option Uuid
  pub action : AuditAction
  pub old_value : Option Entity
  pub new_value : Option Entity
  pub ip_address : Option String
  pub user_agent : Option String
  pub created_at : Time

-- `id` and `now` are what `uuid.New()` and `time.Now()` return.
unfoldable pub new_audit_log :
    Uuid
    → Time
    → Uuid
    → Option Uuid
    → AuditEvent
    → ResourceType
    → Option Uuid
    → AuditAction
    → AuditLog
new_audit_log id now tenant_id user_id event_type resource_type resource_id action = record {
  id = id;
  tenant_id = tenant_id;
  user_id = user_id;
  event_type = event_type;
  resource_type = resource_type;
  resource_id = resource_id;
  action = action;
  old_value = none;
  new_value = none;
  ip_address = none;
  user_agent = none;
  created_at = now;
}

abbrev is_malformed {ℓ} : {A : Type ℓ} → Raw A → Bool
is_malformed malformed = true
is_malformed _ = false

-- Whether an entity holds a message that `json.Marshal` refuses.
unfoldable pub unmarshalable : Entity → Bool
unmarshalable (of_workflow w) = is_malformed w.definition
unmarshalable (of_execution e) = is_malformed e.input || is_malformed e.output
unmarshalable (of_alert a) = is_malformed a.metadata
unmarshalable (of_alert_rule r) =
    is_malformed r.condition_config || is_malformed r.trigger_input_template

unfoldable pub marshal : Entity → Option Entity
unfolding unmarshalable
marshal e = if unmarshalable e then none else some e

-- `if v != nil { a.OldValue, _ = json.Marshal(v) }`
abbrev marshal_value : Option Entity → Option Entity → Option Entity
marshal_value none old = old
marshal_value (some v) old = marshal v

unfoldable pub with_old_value : Option Entity → AuditLog → AuditLog
unfolding marshal
with_old_value v a = record a { old_value = marshal_value v a.old_value }

unfoldable pub with_new_value : Option Entity → AuditLog → AuditLog
unfolding marshal
with_new_value v a = record a { new_value = marshal_value v a.new_value }

unfoldable pub with_ip_address : Option String → AuditLog → AuditLog
with_ip_address ip a = record a { ip_address = ip }

unfoldable pub with_user_agent : Option String → AuditLog → AuditLog
with_user_agent ua a = record a { user_agent = ua }
