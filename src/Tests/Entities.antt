-- ===== src/Tests/Entities.antt =====
-- The domain's theorems on concrete entities.
use orchestrix_api.Common.{
  ◌≡◌, ◌<◌, ◌↔◌, ◌+◌, ◌*◌, ◌^◌, refl, true, ◌&&◌, pos, leb, arith, page_offset, pos_part,
}
use orchestrix_api.Domain.Values.{at_rank, nanoseconds_per_second}
use orchestrix_api.Domain.AlertRule.{can_trigger, mark_triggered, evaluate_threshold, value}
use orchestrix_api.Domain.AlertRule.Threshold.{Fires, evaluate_threshold_iff}
use orchestrix_api.Domain.AlertRule.Cooldown.{can_trigger-mark_triggered}
use orchestrix_api.Http.Pagination.{parse_pagination, page_offset-parse_pagination}
use orchestrix_api.Tests.Fixtures.{a_rule}

evaluate_threshold_iff_example :
    (evaluate_threshold (at_rank 95) a_rule ≡ value true) ↔ Fires (at_rank 95) a_rule
evaluate_threshold_iff_example = evaluate_threshold_iff (at_rank 95) a_rule

can_trigger-mark_triggered_example :
    (can_trigger 60000000500 (mark_triggered 500 a_rule)
      ≡ (a_rule.enabled && leb (500 + nanoseconds_per_second * 60) 60000000500))
    × (nanoseconds_per_second * 60 < 2 ^ 63)
can_trigger-mark_triggered_example =
    can_trigger-mark_triggered 500 60000000500 60 a_rule refl (omega arith)

page_offset-parse_pagination_example :
    page_offset (parse_pagination (pos 4) (pos 25)).0 (parse_pagination (pos 4) (pos 25)).1
    ≡ pos (3 * pos_part (parse_pagination (pos 4) (pos 25)).1)
page_offset-parse_pagination_example = page_offset-parse_pagination 3 (pos 25) (omega arith)
