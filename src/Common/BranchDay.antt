-- ===== src/Common/BranchDay.antt =====
-- src/common/utils/branch-day.util.ts: calendar days of a branch. A day is a valid day by its type,
-- so `assertCalendarDay` has nothing left to refuse.
use Prim.Native.String.{String}
use wash_flow.Prelude.{ℕ, ◌+◌, ◌%◌, Bool, List, leb, contains}
use wash_flow.Common.Zones.{Zones}

unfoldable pub add_calendar_days : ℕ → ℕ → ℕ
add_calendar_days day days = day + days

-- `getUTCDay`: 1970-01-01 was a Thursday, and 0 is Sunday.
unfoldable pub get_utc_day : ℕ → ℕ
get_utc_day day = (day + 4) % 7

pub record DayRange : Type 0 where
  pub start : ℕ
  pub end : ℕ

pub record DayRestrictions : Type 0 where
  pub is_working_day : Bool
  pub is_within_advance : Bool

module _ (z : Zones) where
  unfoldable pub branch_calendar_day : ℕ → String → ℕ
  branch_calendar_day instant timezone = z.calendar_day instant timezone

  unfoldable pub branch_day_range : ℕ → String → DayRange
  unfolding add_calendar_days
  branch_day_range day timezone = record {
    start = z.from_zoned_time day 0 timezone;
    end = z.from_zoned_time (add_calendar_days day 1) 0 timezone;
  }

  unfoldable pub booking_day_restrictions : ℕ → String → List ℕ → ℕ → ℕ → DayRestrictions
  unfolding get_utc_day add_calendar_days branch_calendar_day
  booking_day_restrictions day timezone working_days max_advance_days now = record {
    is_working_day = contains working_days (get_utc_day day);
    is_within_advance =
        leb day (add_calendar_days (branch_calendar_day now timezone) max_advance_days);
  }
