-- ===== src/Domain/AlertRule/Cooldown.antt =====
-- The cooldown of a rule: CanTrigger and MarkTriggered together.
use orchestrix_api.Common.{ℕ, ◌+◌, ◌*◌, ◌^◌, ◌<◌, ◌≡◌, ◌&&◌, arith, leb, pos}
use orchestrix_api.Domain.Values.{nanoseconds_per_second}
use orchestrix_api.Domain.AlertRule.{AlertRule, can_trigger, mark_triggered}

-- A rule with a cooldown of c seconds, an int32 that is not negative, that is marked as triggered can
-- trigger again exactly if it is enabled and c seconds, in nanoseconds, have passed; that many
-- nanoseconds fit the int64 of a `time.Duration`.
pub can_trigger-mark_triggered :
    (now later c : ℕ) (r : AlertRule)
    → r.cooldown_seconds ≡ pos c
    → c < 2 ^ 31
    → (can_trigger later (mark_triggered now r)
        ≡ (r.enabled && leb (now + nanoseconds_per_second * c) later))
      × (nanoseconds_per_second * c < 2 ^ 63)
unfolding can_trigger mark_triggered
can_trigger-mark_triggered now later c r h k = (ground arith, omega arith)
