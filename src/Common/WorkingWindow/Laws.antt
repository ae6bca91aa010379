-- ===== src/Common/WorkingWindow/Laws.antt =====
-- The window beside the interval that it is computed for, and the end of the loop.
use Prim.Native.String.{String}
use wash_flow.Prelude.{
  ℕ, zero, suc, ◌+◌, ◌-◌, ◌*◌, ◌/◌, ◌≤◌, ◌<◌, ◌≡◌, ◌≢◌, ◌⊎◌, inl, inr, none, some, arith,
  Bool-cases, ltb, ltb→lt,
}
use wash_flow.Common.Zones.{Zones, minute_ms, HasMinuteOffsets}
use wash_flow.Common.WorkingWindow.{
  WorkingWindow, next_minute, earlier, later, day_of, time_of, segment_end, segments, enough_fuel,
  working_window_for_interval,
}

segment_end_facts :
    (z : Zones) (timezone : String) (cursor end : ℕ)
    → cursor < end
    → let stop = segment_end z timezone cursor end in
      (cursor < stop) × (stop ≤ end) × ((stop ≡ end) ⊎ (stop / minute_ms ≡ cursor / minute_ms + 1))
segment_end_facts z timezone cursor end h = omega arith

same_segment :
    (z : Zones) (timezone : String) (cursor end t : ℕ)
    → cursor ≤ t
    → t < segment_end z timezone cursor end
    → t / minute_ms ≡ cursor / minute_ms
same_segment z timezone cursor end t h k = omega arith

module _ (z : Zones) (timezone : String) where
  -- The fuel lasts for every minute that is left.
  segments_total :
      (fuel day end cursor start_time end_time : ℕ)
      → cursor ≤ end
      → ((cursor ≡ end) × (1 ≤ fuel)) ⊎ (end / minute_ms + 2 ≤ cursor / minute_ms + fuel)
      → segments z timezone fuel day end cursor start_time end_time ≢ none
  unfolding segments
  segments_total zero day end cursor start_time end_time b h = absurd (omega arith)
  segments_total (suc fuel) day end cursor start_time end_time b h =
      let stop = segment_end z timezone cursor end in
      elim (Bool-cases (ltb cursor end)) [
        | inl more ↦
            let (forward, within, next) =
              segment_end_facts z timezone cursor end (ltb→lt cursor end more) in
            ground (
              arith,
              segments_total fuel day end stop (earlier (time_of z timezone cursor) start_time)
                  (later (next_minute (time_of z timezone (stop - 1))) end_time) within
                  (ground arith),
            )
        | inr done ↦ ground arith
      ]

  -- What is left to check of the interval, at the start of a round.
  abbrev Covers : ℕ → ℕ → ℕ → WorkingWindow → Type 0
  Covers day cursor end w =
      (t : ℕ)
      → cursor ≤ t
      → t < end
      → (z.calendar_day t timezone ≡ day)
        × (w.start_time ≤ z.minute_of_day t timezone)
        × (z.minute_of_day t timezone < w.end_time)

  round :
      (fuel day end cursor start_time end_time : ℕ) (w : WorkingWindow)
      → segments z timezone (suc fuel) day end cursor start_time end_time ≡ some (some w)
      → cursor < end
      → let stop = segment_end z timezone cursor end in
        (z.calendar_day cursor timezone ≡ day)
        × (segments z timezone fuel day end stop
              (earlier (time_of z timezone cursor) start_time)
              (later (next_minute (time_of z timezone (stop - 1))) end_time)
            ≡ some (some w))
  unfolding segments
  round fuel day end cursor start_time end_time w h more = ground arith

  segments_cover :
      HasMinuteOffsets z timezone
      → (fuel day end cursor start_time end_time : ℕ) (w : WorkingWindow)
      → segments z timezone fuel day end cursor start_time end_time ≡ some (some w)
      → (w.start_time ≤ start_time) × (end_time ≤ w.end_time) × Covers day cursor end w
  unfolding segments next_minute
  segments_cover m zero day end cursor start_time end_time w h = cc
  segments_cover m (suc fuel) day end cursor start_time end_time w h =
      elim (Bool-cases (ltb cursor end)) [
        | inl more ↦
            let stop = segment_end z timezone cursor end in
            let (forward, within, next) =
              segment_end_facts z timezone cursor end (ltb→lt cursor end more) in
            let (same, rest) =
              round fuel day end cursor start_time end_time w h (ltb→lt cursor end more) in
            let (lo, hi, later_on) =
              segments_cover m fuel day end stop (earlier (time_of z timezone cursor) start_time)
                (later (next_minute (time_of z timezone (stop - 1))) end_time) w rest in
            (
              ground arith,
              ground arith,
              λ t a b. elim (Bool-cases (ltb t stop)) [
                | inl here ↦ ground (
                  arith,
                  m.same_day t cursor (same_segment z timezone cursor end t a (ltb→lt t stop here)),
                  m.same_minute t cursor
                      (same_segment z timezone cursor end t a (ltb→lt t stop here)),
                  m.same_minute (stop - 1) cursor
                      (same_segment z timezone cursor end (stop - 1) (omega arith) (omega arith)),
                )
                | inr there ↦ later_on t (ground arith) b
              ],
            )
        | inr done ↦ (ground arith, ground arith, λ t a b. absurd (ground arith))
      ]

-- In a zone with whole-minute offsets, the window computed for an interval covers it: every instant
-- of the interval falls on the local day of its start, at a time of day from the window's start on
-- and before the window's end.
pub working_window_covers :
    (z : Zones) (timezone : String) (start end : ℕ) (w : WorkingWindow)
    → HasMinuteOffsets z timezone
    → working_window_for_interval z timezone start end ≡ some w
    → (t : ℕ) → start ≤ t
    → t < end
    → (z.calendar_day t timezone ≡ z.calendar_day start timezone)
      × (w.start_time ≤ z.minute_of_day t timezone)
      × (z.minute_of_day t timezone < w.end_time)
unfolding working_window_for_interval
working_window_covers z timezone start end w m h =
    let fuel = enough_fuel z timezone start end in
    let looped =
      segments z timezone fuel (day_of z timezone start) end start (time_of z timezone start) 0 in
    let found : looped ≡ some (some w) = ground arith in
    (segments_cover z timezone m fuel (day_of z timezone start) end start (time_of z timezone start)
      0 w found).2

module _ (z : Zones) (timezone : String) where
  segments_found :
      (fuel day end cursor start_time end_time : ℕ)
      → cursor ≤ end
      → ((cursor ≡ end) × (1 ≤ fuel)) ⊎ (end / minute_ms + 2 ≤ cursor / minute_ms + fuel)
      → ((t : ℕ) → cursor ≤ t → t < end → z.calendar_day t timezone ≡ day)
      → segments z timezone fuel day end cursor start_time end_time ≢ some none
  unfolding segments
  segments_found zero day end cursor start_time end_time b h same = absurd (omega arith)
  segments_found (suc fuel) day end cursor start_time end_time b h same =
      let stop = segment_end z timezone cursor end in
      elim (Bool-cases (ltb cursor end)) [
        | inl more ↦
            let (forward, within, next) =
              segment_end_facts z timezone cursor end (ltb→lt cursor end more) in
            ground (
              arith,
              same cursor (omega arith) (ltb→lt cursor end more),
              same (stop - 1) (omega arith) (omega arith),
              segments_found fuel day end stop (earlier (time_of z timezone cursor) start_time)
                  (later (next_minute (time_of z timezone (stop - 1))) end_time) within
                  (ground arith) (λ t a c. same t (omega arith) c),
            )
        | inr done ↦ ground arith
      ]

-- A window is found for every interval that is not empty, whose instants all fall on the local day
-- of its start, and whose end, rounded up to a minute, does too: the loop never runs out of fuel.
pub working_window_found :
    (z : Zones) (timezone : String) (start end : ℕ)
    → start < end
    → z.calendar_day ((end + 59999) / 60000 * 60000) timezone ≡ z.calendar_day start timezone
    → ((t : ℕ) → start ≤ t → t < end → z.calendar_day t timezone ≡ z.calendar_day start timezone)
    → working_window_for_interval z timezone start end ≢ none
unfolding working_window_for_interval
working_window_found z timezone start end h rounded same =
    let fuel = enough_fuel z timezone start end in
    let day = day_of z timezone start in
    ground (
      arith,
      segments_total z timezone fuel day end start (time_of z timezone start) 0 (omega arith)
          (omega arith),
      segments_found z timezone fuel day end start (time_of z timezone start) 0 (omega arith)
          (omega arith) same,
    )
