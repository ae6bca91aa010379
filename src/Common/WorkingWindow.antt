-- ===== src/Common/WorkingWindow.antt =====
-- src/common/utils/working-window.util.ts: the shift that a worker needs for a whole interval.
-- The loop runs on fuel, one round for each minute of UTC that the interval meets.
pub mod Laws
pub mod Tests
use Prim.Native.String.{String}
use wash_flow.Prelude.{
  ℕ, zero, suc, ◌+◌, ◌-◌, ◌*◌, ◌/◌, Option, none, some, not, ◌||◌, leb, ltb, ◌==◌, min,
  if◌then◌else◌, get_or,
}
use wash_flow.Common.Zones.{Zones, minute_ms}

pub record WorkingWindow : Type 0 where
  pub start_time : ℕ
  pub end_time : ℕ

-- The minute after a time of day; after 23:59 it is 24:00.
unfoldable pub next_minute : ℕ → ℕ
next_minute time = time + 1

abbrev pub earlier : ℕ → ℕ → ℕ
earlier time start_time = if ltb time start_time then time else start_time

abbrev pub later : ℕ → ℕ → ℕ
later time end_time = if ltb end_time time then time else end_time

module _ (z : Zones) (timezone : String) where
  abbrev pub day_of : ℕ → ℕ
  day_of t = z.calendar_day t timezone

  abbrev pub time_of : ℕ → ℕ
  time_of t = z.minute_of_day t timezone

  abbrev pub segment_end : ℕ → ℕ → ℕ
  segment_end cursor end = min ((cursor / minute_ms + 1) * minute_ms) end

  -- `none` is out of fuel, `some none` is null.
  unfoldable pub segments : ℕ → ℕ → ℕ → ℕ → ℕ → ℕ → Option (Option WorkingWindow)
  unfolding next_minute
  segments zero day end cursor start_time end_time = none
  segments (suc fuel) day end cursor start_time end_time =
      let stop = segment_end cursor end in
      let first = time_of cursor in
      let last = time_of (stop - 1) in
      let rest =
        segments fuel day end stop (earlier first start_time) (later (next_minute last) end_time) in
      if ltb cursor end
      then (if not (day_of cursor == day) || not (day_of (stop - 1) == day)
          then some none
          else rest)
      else some (some (record { start_time = start_time; end_time = end_time }))

  abbrev pub enough_fuel : ℕ → ℕ → ℕ
  enough_fuel start end = end / minute_ms + 3 - start / minute_ms

  unfoldable pub working_window_for_interval : ℕ → ℕ → Option WorkingWindow
  working_window_for_interval start end =
      let rounded_end = (end + (minute_ms - 1)) / minute_ms * minute_ms in
      if leb end start
      then none
      else if not (day_of rounded_end == day_of start)
      then none
      else get_or (segments (enough_fuel start end) (day_of start) end start (time_of start) 0) none
