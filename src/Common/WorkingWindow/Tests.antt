-- ===== src/Common/WorkingWindow/Tests.antt =====
-- The working window in a zone of whole minutes.
use wash_flow.Prelude.{◌+◌, ◌*◌, ◌/◌, ◌%◌, ◌≤◌, ◌<◌, ◌≡◌, refl, ◌≢◌, ap, none, some, arith}
use wash_flow.Common.Zones.{Zones, HasMinuteOffsets}
use wash_flow.Common.WorkingWindow.{segments, working_window_for_interval, next_minute}
use wash_flow.Common.WorkingWindow.Laws.{working_window_covers, working_window_found}

-- UTC.
abbrev pub utc : Zones
utc = record {
  calendar_day = λ t _. t / 60000 / 1440;
  minute_of_day = λ t _. t / 60000 % 1440;
  from_zoned_time = λ day minute _. (day * 1440 + minute) * 60000;
}

utc-HasMinuteOffsets : HasMinuteOffsets utc "UTC"
utc-HasMinuteOffsets = record {
  same_day = λ t u e. ap (λ m. m / 1440) e;
  same_minute = λ t u e. ap (λ m. m % 1440) e;
}

-- 09:00:30 to 09:02:10 needs the shift from 09:00 to 09:03.
nine :
    working_window_for_interval utc "UTC" (540 * 60000 + 30000) (542 * 60000 + 10000)
    ≡ some (record { start_time = 540; end_time = 543 })
unfolding working_window_for_interval segments next_minute
nine = refl

working_window_covers_example :
    (541 * 60000 / 60000 / 1440 ≡ (540 * 60000 + 30000) / 60000 / 1440)
    × (540 ≤ 541 * 60000 / 60000 % 1440)
    × (541 * 60000 / 60000 % 1440 < 543)
working_window_covers_example =
    working_window_covers utc "UTC" (540 * 60000 + 30000) (542 * 60000 + 10000)
      (record { start_time = 540; end_time = 543 }) utc-HasMinuteOffsets nine (541 * 60000)
      (omega arith) (omega arith)

working_window_found_example :
    working_window_for_interval utc "UTC" (540 * 60000) (570 * 60000) ≢ none
working_window_found_example =
    working_window_found utc "UTC" (540 * 60000) (570 * 60000) (omega arith) (omega arith)
      (λ t a b. omega arith)
