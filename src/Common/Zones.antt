-- ===== src/Common/Zones.antt =====
-- The two calls of date-fns-tz that the program makes, formatInTimeZone and fromZonedTime, as an
-- interface: the time zone database is not part of the program.
use Prim.Native.String.{String}
use wash_flow.Prelude.{ℕ, ◌≡◌, ◌/◌}

pub record Zones : Type 0 where
  -- formatInTimeZone(instant, timezone, 'yyyy-MM-dd') and (…, 'HH:mm')
  pub calendar_day : ℕ → String → ℕ
  pub minute_of_day : ℕ → String → ℕ
  -- fromZonedTime(`${day}T${time}:00`, timezone)
  pub from_zoned_time : ℕ → ℕ → String → ℕ

abbrev pub minute_ms : ℕ
minute_ms = 60000

-- What is assumed of a zone where it matters: its offsets are whole minutes, so the instants of one
-- minute of UTC have one local day and time.
pub record HasMinuteOffsets (z : Zones) (timezone : String) : Type 0 where
  pub same_day :
      (t u : ℕ)
      → t / minute_ms ≡ u / minute_ms
      → z.calendar_day t timezone ≡ z.calendar_day u timezone
  pub same_minute :
      (t u : ℕ)
      → t / minute_ms ≡ u / minute_ms
      → z.minute_of_day t timezone ≡ z.minute_of_day u timezone
