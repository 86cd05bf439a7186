-- ===== src/Domain/Execution/Lifecycle.antt =====
-- What the marks of an execution leave behind, in any order.
use orchestrix_api.Common.{String, ◌≡◌, refl, true, false, not, List, [], ◌∷◌, is_some, arith}
use orchestrix_api.Domain.Values.{Time, Raw}
use orchestrix_api.Domain.Execution.{
  ExecutionStatus, pending, cancellable_status, running, failed, Execution, is_terminal, can_cancel,
  terminal_status, mark_as_running, mark_as_completed, mark_as_failed, mark_as_cancelled,
}

-- The calls of the four Mark methods.
pub data Mark : Type 0 where
  as_running : Time → Mark
  as_completed : Time → Raw String → Mark
  as_failed : Time → String → Mark
  as_cancelled : Time → Mark

abbrev pub apply : Mark → Execution → Execution
apply (as_running t) e = mark_as_running t e
apply (as_completed t output) e = mark_as_completed t output e
apply (as_failed t message) e = mark_as_failed t message e
apply (as_cancelled t) e = mark_as_cancelled t e

abbrev pub apply_all : List Mark → Execution → Execution
apply_all [] e = e
apply_all (m ∷ ms) e = apply_all ms (apply m e)

-- A status that is one of the constants.
abbrev pub IsKnown : ExecutionStatus → Type 0
IsKnown (ExecutionStatus.unknown s) = ⊥
IsKnown _ = Unit

cancellable_known :
    (s : ExecutionStatus) → IsKnown s → cancellable_status s ≡ not (terminal_status s)
cancellable_known pending h = refl
cancellable_known (ExecutionStatus.unknown s) h = absurd h
cancellable_known _ h = refl

-- The timestamps and the message that go with a status are there.
pub record IsConsistent (e : Execution) : Type 0 where
  pub ended : is_terminal e ≡ true → is_some e.completed_at ≡ true
  pub began : e.status ≡ running → is_some e.started_at ≡ true
  pub explained : e.status ≡ failed → is_some e.error ≡ true

apply-IsConsistent : (m : Mark) (e : Execution) → IsConsistent e → IsConsistent (apply m e)
unfolding is_terminal mark_as_running mark_as_completed mark_as_failed mark_as_cancelled
apply-IsConsistent (as_running t) e h = ground arith
apply-IsConsistent _ e h = ground arith

-- Any sequence of marks keeps an execution consistent: a terminal one has its completion time, a
-- running one its start time, a failed one its message.
pub apply_all-IsConsistent :
    (ms : List Mark) (e : Execution) → IsConsistent e → IsConsistent (apply_all ms e)
apply_all-IsConsistent [] e h = h
apply_all-IsConsistent (m ∷ ms) e h =
    apply_all-IsConsistent ms (apply m e) (apply-IsConsistent m e h)

-- An execution with a status that the source names can be cancelled exactly while it is not
-- terminal; after MarkAsCancelled it cannot be, and it is terminal.
pub can_cancel_lem :
    (e : Execution) (t : Time)
    → IsKnown e.status
    → (can_cancel e ≡ not (is_terminal e))
      × (can_cancel (mark_as_cancelled t e) ≡ false)
      × (is_terminal (mark_as_cancelled t e) ≡ true)
unfolding can_cancel is_terminal mark_as_cancelled
can_cancel_lem e t known = (cancellable_known e.status known, refl, refl)
