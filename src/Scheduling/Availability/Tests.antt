-- ===== src/Scheduling/Availability/Tests.antt =====
-- The slots of a short Monday at the small car wash, open from 08:00 to 09:30.
use wash_flow.Scheduling.{reserve_slot}
use wash_flow.Occupancy.{busy}
use wash_flow.Common.WorkingWindow.{segments}
use mathlib.Core.List.Memᴰ
use wash_flow.Prelude.{
  ℕ, ◌+◌, ◌*◌, ◌≡◌, refl, true, false, none, some, List, [], ◌∷◌, ok, err, arith, any, conflict,
  contains, ◌↔◌, subst, sym,
}
use wash_flow.Database.{Db, Branch, find_active_branch}
use wash_flow.Common.WorkingWindow.Tests.{utc}
use wash_flow.Orders.Fixture.{car_wash, first_order}
use wash_flow.Orders.Resources.{
  reserve_resources, given, undefined, reserve_post, resolve_work_post,
}
use wash_flow.Scheduling.Queries.{CheckAvailabilityParams, find_branch, work_post_ids}
use wash_flow.Scheduling.Availability.{TimeSlot, Day, day_of, check_availability, day_slots}
use wash_flow.Scheduling.Availability.Grid.{day_slots-IsOnGrid, IsOnGrid, is_slot_of}
use wash_flow.Scheduling.Availability.Reserves.{
  check_availability-reserve_resources, CanReserve, IsBufferedInside, reservation_of_slot,
}

abbrev short_monday : Db
short_monday = record car_wash {
  booking_settings =
      record {
        tenant_id = 1;
        branch_id = some 2;
        slot_duration_minutes = 30;
        buffer_time_minutes = 10;
        max_advance_booking_days = 30;
        allow_online_booking = true;
        working_hours_start = 480;
        working_hours_end = 570;
        working_days = 1 ∷ [];
      }
      ∷ [];
}

abbrev monday : CheckAvailabilityParams
monday = record {
  tenant_id = 1;
  branch_id = 2;
  work_post_id = none;
  assigned_employee_id = none;
  day = 4;
  duration_minutes = 0;
  exclude_order_id = none;
}

abbrev at : ℕ → ℕ
at minute = (4 * 1440 + minute) * 60000

abbrev hours : Day
hours = record {
  timezone = "UTC";
  step = 1800000;
  buffer_minutes = 10;
  start = at 480;
  end = at 570;
}

abbrev branch : Branch
branch = record {
  id = 2;
  tenant_id = 1;
  is_active = true;
  deleted_at = none;
  timezone = some "UTC";
}

abbrev first_post : ℕ → TimeSlot
first_post minute = record {
  start = at minute;
  end = at (minute + 30);
  work_post_id = 11;
  available = true;
}

-- The one worker leaves the second post unavailable.
abbrev second_post : ℕ → TimeSlot
second_post minute = record {
  start = at minute;
  end = at (minute + 30);
  work_post_id = 12;
  available = false;
}

abbrev slots : List TimeSlot
slots =
    first_post 480
    ∷ second_post 480
    ∷ first_post 510
    ∷ second_post 510
    ∷ first_post 540
    ∷ second_post 540
    ∷ []

lists_slots : check_availability utc monday 0 short_monday ≡ ok slots
unfolding check_availability segments
lists_slots = refl

has_hours : day_of utc short_monday monday branch ≡ hours
unfolding day_of
has_hours = refl

finds_branch : find_branch short_monday 1 2 ≡ some branch
unfolding find_branch
finds_branch = refl

offered : contains (work_post_ids short_monday monday) 12 ≡ true
unfolding work_post_ids
offered = refl

day_slots-IsOnGrid_example :
    (any (is_slot_of 1800000 12 (at 540)) (day_slots utc short_monday monday hours) ≡ true)
    ↔ IsOnGrid 1800000 (at 570) (at 480) (at 540)
day_slots-IsOnGrid_example =
    day_slots-IsOnGrid utc short_monday monday hours 12 (at 540) (omega arith) offered

check_availability-reserve_resources_example :
    CanReserve utc short_monday monday (day_of utc short_monday monday branch) (first_post 510)
check_availability-reserve_resources_example =
    check_availability-reserve_resources utc monday 0 short_monday branch slots (first_post 510)
      finds_branch refl lists_slots (Memᴰ.tail (Memᴰ.tail (Memᴰ.head refl))) refl
      (subst (λ d. IsBufferedInside d (first_post 510)) (sym has_hours) (omega arith, omega arith))

-- With an order until 07:55 the post is offered at 08:00, though its buffer is not over.
abbrev early : Db
early = record short_monday {
  orders =
      record first_order {
        scheduled_start = at 465;
        scheduled_end = at 475;
        assigned_employee_id = none;
      }
      ∷ [];
}

offers_eight : check_availability utc monday 0 early ≡ ok slots
unfolding check_availability segments
offers_eight = refl

refuses_eight :
    reserve_resources utc early
      (reservation_of_slot monday hours (first_post 480))
      (given 11)
      undefined
    ≡ err (conflict "The requested time slot overlaps with an existing booking")
unfolding reserve_resources resolve_work_post find_active_branch reserve_post reserve_slot busy
refuses_eight = refl
