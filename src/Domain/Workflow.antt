-- ===== src/Domain/Workflow.antt =====
-- internal/core/domain/workflow.go. A method that changes `*Workflow` returns the new record.
pub mod Activation
use orchestrix_api.Common.{
  ℕ, String, Bool, true, false, not, Option, none, some, List, [], ◌∷◌, is_empty, if◌then◌else◌,
}
use orchestrix_api.Domain.Errors.{DomainError, invalid_definition, no_steps}
use orchestrix_api.Domain.Values.{Uuid, Time, Raw, absent, malformed, mistyped, parsed}

-- A status is a text in the source, so a request can bring one that is none of the constants.
pub data WorkflowStatus : Type 0 where
  draft active inactive : WorkflowStatus
  unknown : String → WorkflowStatus

-- `Config` is never read by the domain.
pub record WorkflowStep : Type 0 where
  pub name : String
  pub kind : String

pub record WorkflowDefinition : Type 0 where
  pub steps : List WorkflowStep

pub record Workflow : Type 0 where
  pub id : Uuid
  pub tenant_id : Uuid
  pub name : String
  pub description : Option String
  pub definition : Raw WorkflowDefinition
  pub schedule : Option String
  pub status : WorkflowStatus
  pub version : ℕ
  pub created_by : Option Uuid
  pub created_at : Time
  pub updated_at : Time

abbrev is_active : WorkflowStatus → Bool
is_active active = true
is_active _ = false

unfoldable pub can_execute : Workflow → Bool
can_execute w = is_active w.status

-- The result of a domain method that may fail: the sentinel, or none for nil.
abbrev pub parse_raw : Raw WorkflowDefinition → Option WorkflowDefinition
parse_raw absent = some (record { steps = [] })
parse_raw malformed = none
parse_raw mistyped = none
parse_raw (parsed def) = some def

-- None is the error `ErrInvalidDefinition`.
unfoldable pub parse_definition : Workflow → Option WorkflowDefinition
parse_definition w = parse_raw w.definition

abbrev activate_with : Option WorkflowDefinition → Workflow → Option DomainError × Workflow
activate_with none w = (some invalid_definition, w)
activate_with (some def) w =
    if is_empty def.steps then (some no_steps, w) else (none, record w { status = active })

unfoldable pub activate : Workflow → Option DomainError × Workflow
unfolding parse_definition
activate w = activate_with (parse_definition w) w

unfoldable pub deactivate : Workflow → Workflow
deactivate w = record w { status = inactive }

abbrev has_steps : Option WorkflowDefinition → Bool
has_steps none = false
has_steps (some def) = not (is_empty def.steps)

unfoldable pub has_dynamic_definition : Workflow → Bool
unfolding parse_definition
has_dynamic_definition w = has_steps (parse_definition w)
