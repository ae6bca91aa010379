-- ===== src/Scheduling/Availability.antt =====
-- `checkAvailability` of src/modules/scheduling/scheduling.service.ts. The day is the calendar day
-- in UTC of the parameter `date`, a time of day is its minutes already, and the names of the work
-- posts are left out. The loop over the day runs on fuel, one round for each minute of it.
pub mod Grid
pub mod Reserves
mod Posts
mod Workers
mod Tests
use Prim.Native.String.{String}
use wash_flow.Prelude.{
  ◌>>=◌, ℕ, zero, suc, ◌+◌, ◌-◌, ◌*◌, ◌/◌, Bool, false, not, Option, none, some, List, [], ◌∷◌,
  ◌++◌, map, ◌&&◌, ◌||◌, leb, ltb, ◌==◌, ◌==?◌, is_some, get_or, filter, length, contains, any, min,
  Result, ok, not_found, or_throw, if◌then◌else◌,
}
use wash_flow.Database.{Db, Order, Branch, EmployeeProfile}
use wash_flow.Common.Zones.{Zones, minute_ms}
use wash_flow.Common.BranchDay.{booking_day_restrictions}
use wash_flow.Common.BookingSettings.{resolve_booking_settings}
use wash_flow.Common.WorkingWindow.{WorkingWindow, working_window_for_interval}
use wash_flow.Occupancy.{buffered_start, buffered_end}
use wash_flow.Scheduling.Queries.{
  CheckAvailabilityParams, find_branch, work_post_ids, find_orders_for_work_posts,
  count_profiles_for_branch, find_candidates, find_active_orders,
}

pub record TimeSlot : Type 0 where
  pub start : ℕ
  pub end : ℕ
  pub work_post_id : ℕ
  pub available : Bool

-- `while (cursor + slotDuration <= dayEnd)`: where the slots start.
unfoldable pub slot_starts : ℕ → ℕ → ℕ → ℕ → List ℕ
slot_starts zero step day_end cursor = []
slot_starts (suc fuel) step day_end cursor =
    let rest = slot_starts fuel step day_end (cursor + step) in
    if leb (cursor + step) day_end then cursor ∷ rest else []

abbrev pub enough_rounds : ℕ → ℕ → ℕ
enough_rounds day_start day_end = (day_end - day_start) / minute_ms + 1

abbrev pub conflicts : ℕ → ℕ → Order → Bool
conflicts start end o = ltb o.scheduled_start end && ltb start o.scheduled_end

abbrev pub starts_by : Option ℕ → ℕ → Bool
starts_by none time = false
starts_by (some t) time = not (ltb time t)

abbrev pub ends_from : Option ℕ → ℕ → Bool
ends_from none time = false
ends_from (some t) time = not (ltb t time)

-- What the filter of the candidates asks of one at a slot.
abbrev pub is_free : Option WorkingWindow → List Order → ℕ → ℕ → EmployeeProfile → Bool
is_free none orders start end c = false
is_free (some window) orders start end c =
    starts_by c.work_start_time window.start_time
    && (ends_from c.work_end_time window.end_time
        && not (any (λ o. o.assigned_employee_id ==? c.id && conflicts start end o) orders))

-- The indices of the posts that are available, from the index `i` on.
abbrev pub available_indices : ℕ → List Bool → List ℕ
available_indices i [] = []
available_indices i (available ∷ rest) =
    let others = available_indices (i + 1) rest in if available then i ∷ others else others

-- `slice(0, n)`
abbrev pub slice {ℓ} : {A : Type ℓ} → ℕ → List A → List A
slice zero xs = []
slice (suc n) [] = []
slice (suc n) (x ∷ xs) = x ∷ slice n xs

-- `effectiveCapacity`, of the number of posts that are free and of the employees that are.
unfoldable pub effective_capacity : ℕ → Option ℕ → ℕ → List ℕ → ℕ
effective_capacity total_profiles assigned posts employees =
    if (ltb 0 total_profiles || is_some assigned) && ltb 0 posts
    then elim assigned [
      | some id ↦ if contains employees id then posts else 0
      | none ↦ min posts (length employees)
    ]
    else posts

-- What `checkAvailability` has loaded of a day.
pub record Day : Type 0 where
  pub timezone : String
  pub step : ℕ
  pub buffer_minutes : ℕ
  pub start : ℕ
  pub end : ℕ

module _ (z : Zones) (db : Db) (params : CheckAvailabilityParams) (d : Day) where
  abbrev pub post_orders : List Order
  post_orders =
      find_orders_for_work_posts db.orders params.tenant_id (work_post_ids db params) d.start d.end
        params.exclude_order_id

  unfoldable pub is_post_free : ℕ → ℕ → Bool
  unfolding find_orders_for_work_posts work_post_ids
  is_post_free cursor work_post_id = not (
      any
        (λ o.
          o.work_post_id ==? work_post_id
          && conflicts (buffered_start cursor d.buffer_minutes)
              (buffered_end (cursor + d.step) d.buffer_minutes) o)
        post_orders)

  abbrev pub employee_orders : List Order
  employee_orders =
      find_active_orders db params (map (λ e. e.id) (find_candidates db params))
        (buffered_start d.start d.buffer_minutes) (buffered_end d.end d.buffer_minutes)

  -- `employeeAvailabilityBySlot`, at one slot.
  unfoldable pub available_employees : ℕ → List ℕ
  unfolding find_candidates find_active_orders working_window_for_interval
  available_employees cursor =
      map (λ e. e.id)
        (filter
          (is_free (working_window_for_interval z d.timezone cursor (cursor + d.step))
            employee_orders (buffered_start cursor d.buffer_minutes)
            (buffered_end (cursor + d.step) d.buffer_minutes))
          (find_candidates db params))

  -- The posts of one slot in order, those beyond the capacity no longer available.
  abbrev pub capped_slots : ℕ → List ℕ → ℕ → List ℕ → List TimeSlot
  capped_slots cursor capped i [] = []
  capped_slots cursor capped i (id ∷ ids) =
      record {
        start = cursor;
        end = cursor + d.step;
        work_post_id = id;
        available = is_post_free cursor id && contains capped i;
      }
      ∷ capped_slots cursor capped (i + 1) ids

  unfoldable pub slots_at : ℕ → List TimeSlot
  unfolding is_post_free available_employees effective_capacity count_profiles_for_branch
  slots_at cursor =
      let ids = work_post_ids db params in
      let available = available_indices 0 (map (is_post_free cursor) ids) in
      let capacity =
        effective_capacity (count_profiles_for_branch db params.tenant_id params.branch_id)
          params.assigned_employee_id (length available) (available_employees cursor) in
      capped_slots cursor (slice capacity available) 0 ids

  unfoldable pub slots_from : List ℕ → List TimeSlot
  unfolding slots_at
  slots_from [] = []
  slots_from (cursor ∷ cursors) = slots_at cursor ++ slots_from cursors

-- The day that the settings and the branch's time zone give.
unfoldable pub day_of : Zones → Db → CheckAvailabilityParams → Branch → Day
unfolding resolve_booking_settings
day_of z db params branch =
    let settings =
      resolve_booking_settings db.booking_settings params.tenant_id (some params.branch_id) in
    let timezone = get_or branch.timezone "UTC" in
    let minutes =
      if params.duration_minutes == 0
      then settings.slot_duration_minutes
      else params.duration_minutes in
    record {
      timezone = timezone;
      step = minutes * minute_ms;
      buffer_minutes = settings.buffer_time_minutes;
      start = z.from_zoned_time params.day settings.working_hours_start timezone;
      end = z.from_zoned_time params.day settings.working_hours_end timezone;
    }

unfoldable pub day_slots : Zones → Db → CheckAvailabilityParams → Day → List TimeSlot
unfolding slot_starts slots_from
day_slots z db params d =
    slots_from z db params d (slot_starts (enough_rounds d.start d.end) d.step d.end d.start)

unfoldable pub check_availability :
    Zones → CheckAvailabilityParams → ℕ → Db → Result (List TimeSlot)
unfolding find_branch booking_day_restrictions day_of day_slots
check_availability z params now db = do
  branch ←
      or_throw (find_branch db params.tenant_id params.branch_id)
        (not_found "Branch not found in this tenant")
  let settings =
      resolve_booking_settings db.booking_settings params.tenant_id (some params.branch_id)
  let restrictions =
      booking_day_restrictions z params.day (get_or branch.timezone "UTC") settings.working_days
        settings.max_advance_booking_days now
  let d = day_of z db params branch
  ok (
      if not restrictions.is_working_day || not restrictions.is_within_advance
      then []
      else if d.step == 0
      then []
      else day_slots z db params d)
