-- ===== src/Domain/Execution.antt =====
-- internal/core/domain/execution.go. `now` is the reading of `time.Now()` in the method.
pub mod Lifecycle
use orchestrix_api.Common.{String, Bool, true, false, Option, none, some, ◌||◌}
use orchestrix_api.Domain.Values.{Uuid, Time, Raw}

pub data ExecutionStatus : Type 0 where
  pending running completed failed cancelled : ExecutionStatus
  unknown : String → ExecutionStatus

-- `Input` and `Output` are never decoded here: the decoded value is the text itself.
pub record Execution : Type 0 where
  pub id : Uuid
  pub tenant_id : Uuid
  pub workflow_id : Uuid
  pub temporal_workflow_id : Option String
  pub temporal_run_id : Option String
  pub status : ExecutionStatus
  pub input : Raw String
  pub output : Raw String
  pub error : Option String
  pub started_at : Option Time
  pub completed_at : Option Time
  pub created_by : Option Uuid
  pub created_at : Time
  pub triggered_by : Option String

abbrev pub terminal_status : ExecutionStatus → Bool
terminal_status completed = true
terminal_status failed = true
terminal_status cancelled = true
terminal_status _ = false

abbrev pub cancellable_status : ExecutionStatus → Bool
cancellable_status pending = true
cancellable_status running = true
cancellable_status _ = false

unfoldable pub is_terminal : Execution → Bool
is_terminal e = terminal_status e.status

unfoldable pub can_cancel : Execution → Bool
can_cancel e = cancellable_status e.status

unfoldable pub mark_as_running : Time → Execution → Execution
mark_as_running now e = record e { status = running; started_at = some now }

unfoldable pub mark_as_completed : Time → Raw String → Execution → Execution
mark_as_completed now output e = record e {
  status = completed;
  output = output;
  completed_at = some now;
}

unfoldable pub mark_as_failed : Time → String → Execution → Execution
mark_as_failed now message e = record e {
  status = failed;
  error = some message;
  completed_at = some now;
}

unfoldable pub mark_as_cancelled : Time → Execution → Execution
mark_as_cancelled now e = record e { status = cancelled; completed_at = some now }
