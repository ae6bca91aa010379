-- ===== src/Common/BookingSettings.antt =====
-- src/common/utils/booking-settings.util.ts: the settings of a branch, with their fallbacks.
use wash_flow.Prelude.{
  ℕ, ◌*◌, Bool, true, Option, none, some, List, [], ◌∷◌, ◌&&◌, ◌==◌, ◌==?◌, is_none, find?,
}
use wash_flow.Database.{BookingSettings}

pub record ResolvedBookingSettings : Type 0 where
  pub slot_duration_minutes : ℕ
  pub buffer_time_minutes : ℕ
  pub max_advance_booking_days : ℕ
  pub allow_online_booking : Bool
  pub working_hours_start : ℕ
  pub working_hours_end : ℕ
  pub working_days : List ℕ

unfoldable pub defaults : ResolvedBookingSettings
defaults = record {
  slot_duration_minutes = 30;
  buffer_time_minutes = 10;
  max_advance_booking_days = 30;
  allow_online_booking = true;
  working_hours_start = 8 * 60;
  working_hours_end = 20 * 60;
  working_days = 1 ∷ 2 ∷ 3 ∷ 4 ∷ 5 ∷ 6 ∷ [];
}

abbrev resolved : BookingSettings → ResolvedBookingSettings
resolved s = record {
  slot_duration_minutes = s.slot_duration_minutes;
  buffer_time_minutes = s.buffer_time_minutes;
  max_advance_booking_days = s.max_advance_booking_days;
  allow_online_booking = s.allow_online_booking;
  working_hours_start = s.working_hours_start;
  working_hours_end = s.working_hours_end;
  working_days = s.working_days;
}

tenant_settings : List BookingSettings → ℕ → ResolvedBookingSettings
unfolding defaults
tenant_settings rows tenant_id =
    elim (find? (λ s. s.tenant_id == tenant_id && is_none s.branch_id) rows) [
      | some s ↦ resolved s
      | none ↦ defaults
    ]

unfoldable pub resolve_booking_settings :
    List BookingSettings → ℕ → Option ℕ → ResolvedBookingSettings
unfolding tenant_settings
resolve_booking_settings rows tenant_id none = tenant_settings rows tenant_id
resolve_booking_settings rows tenant_id (some branch_id) =
    elim (find? (λ s. s.tenant_id == tenant_id && s.branch_id ==? branch_id) rows) [
      | some s ↦ resolved s
      | none ↦ tenant_settings rows tenant_id
    ]
