-- ===== src/PublicBooking/Tests.antt =====
-- A client without an account books a wash at the small car wash, and one asks for an unknown service.
use Prim.Native.String.{String}
use wash_flow.Prelude.{
  ◌⊎◌, ℕ, ◌≡◌, refl, none, some, Option, [], ◌∷◌, bad_request, not_found, err, true, false, sort_by,
}
use wash_flow.Database.{Db, Order, booked_pending_confirmation, web}
use wash_flow.Common.WorkingWindow.Tests.{utc}
use wash_flow.Orders.Transaction.{DbError, returned, threw, http, attempts}
use wash_flow.Orders.Events.{Done, order_created}
use wash_flow.Orders.Create.{
  CreateOrderDto, insert_order, plan_order, resolve_services_and_pricing,
  validate_client_vehicle_ownership, enforce_booking_constraints, order_of,
}
use wash_flow.Orders.Resources.{reserve_resources, resolve_work_post, reserve_post}
use wash_flow.Orders.Employees.{reserve_employee, employee_eligibility_where}
use wash_flow.Scheduling.{reserve_slot}
use wash_flow.Common.WorkingWindow.{working_window_for_interval, segments}
use wash_flow.Orders.Fixture.{nine, car_wash, first_order}
use wash_flow.Orders.Safety.{IsSafe}
use wash_flow.PublicBooking.Availability.{
  CheckAvailabilityDto, check_availability_by_slug, check_availability_by_tenant_id,
}
use wash_flow.PublicBooking.{
  Tenant, CreateBookingDto, BookingConfirmation, to_booking_confirmation, match_client,
}
use wash_flow.PublicBooking.Booking.{NewIds, create_booking_internal}
use wash_flow.PublicBooking.Matching.{Matching, match_all, match_client-match_all}
use wash_flow.PublicBooking.Outcomes.{create_booking_internal-IsSafe, create_booking_internal-threw}

abbrev closed_tenant : Tenant
closed_tenant = record { id = 1; slug = "sudsy"; is_active = false }

abbrev open_tenant : Tenant
open_tenant = record closed_tenant { is_active = true }

abbrev other_branch : CheckAvailabilityDto
other_branch = record { branch_id = 9; work_post_id = none; date = 4; duration_minutes = none }

hides_closed_tenant :
    check_availability_by_slug utc (closed_tenant ∷ []) "sudsy" other_branch 1000 car_wash
    ≡ err (not_found "Car wash not found")
unfolding check_availability_by_slug
hides_closed_tenant = refl

hides_other_branch :
    check_availability_by_tenant_id utc (open_tenant ∷ []) 1 other_branch 1000 car_wash
    ≡ err (not_found "Branch not found")
unfolding check_availability_by_tenant_id
hides_other_branch = refl

abbrev calm : ℕ → Option DbError
calm n = none

abbrev no_digest : String → String
no_digest s = s

abbrev no_order_text : CreateOrderDto → String
no_order_text dto = ""

abbrev no_text : CreateBookingDto → String
no_text dto = ""

abbrev wash : CreateBookingDto
wash = record {
  branch_id = 2;
  work_post_id = some 11;
  scheduled_start = nine;
  service_ids = 51 ∷ [];
  first_name = "Ada";
  last_name = none;
  phone = "777";
  license_plate = "BB 2";
  vehicle_make = none;
  vehicle_model = none;
  notes = none;
}

abbrev new_ids : NewIds
new_ids = record { client = 32; vehicle = 42; order = 1 }

abbrev with_client : Db
with_client = record car_wash {
  clients =
      record { id = 32; tenant_id = 1; phone = some "777"; deleted_at = none } ∷ car_wash.clients;
  vehicles =
      record {
        id = 42;
        tenant_id = 1;
        client_id = 32;
        license_plate = some "BB 2";
        deleted_at = none;
      }
      ∷ car_wash.vehicles;
}

abbrev web_order : Order
web_order = record first_order {
  client_id = 32;
  vehicle_id = 42;
  created_by_id = none;
  status = booked_pending_confirmation;
  source = web;
}

abbrev with_order : Db
with_order = record with_client { orders = web_order ∷ [] }

abbrev done : Done BookingConfirmation
done = record {
  outcome = returned (to_booking_confirmation web_order wash);
  db = with_order;
  events = order_created web_order ∷ [];
}

books_wash :
    create_booking_internal utc no_digest no_order_text no_text calm none new_ids 1 wash none 1000
      car_wash
    ≡ some done
unfolding create_booking_internal attempts insert_order plan_order validate_client_vehicle_ownership
    resolve_services_and_pricing enforce_booking_constraints reserve_resources resolve_work_post
    reserve_post reserve_slot reserve_employee working_window_for_interval segments sort_by
    employee_eligibility_where order_of
books_wash = refl

create_booking_internal-IsSafe_example : IsSafe done.db.orders
create_booking_internal-IsSafe_example =
    create_booking_internal-IsSafe utc no_digest no_order_text no_text calm new_ids 1 wash none 1000
      car_wash done none tt books_wash (record { posts = tt; employees = tt })

abbrev unknown_wash : CreateBookingDto
unknown_wash = record wash { service_ids = 99 ∷ [] }

abbrev not_done : Done BookingConfirmation
not_done = record {
  outcome = threw (http (bad_request "One or more services not found or inactive"));
  db = with_client;
  events = [];
}

refuses_wash :
    create_booking_internal utc no_digest no_order_text no_text calm none new_ids 1 unknown_wash
      none 1000 car_wash
    ≡ some not_done
unfolding create_booking_internal attempts insert_order plan_order validate_client_vehicle_ownership
    resolve_services_and_pricing
refuses_wash = refl

create_booking_internal-threw_example :
    (not_done.db.orders ≡ [])
    × (not_done.events ≡ [])
    × ((not_done.db ≡ car_wash) ⊎ (not_done.db ≡ (match_client 32 42 1 unknown_wash car_wash).1))
create_booking_internal-threw_example =
    create_booking_internal-threw utc no_digest no_order_text no_text calm new_ids 1 unknown_wash
      none 1000 car_wash not_done none
      (http (bad_request "One or more services not found or inactive")) refuses_wash refl

-- Another visitor, who comes in between.
abbrev other_visitor : Matching
other_visitor = record {
  client_id = 50;
  vehicle_id = 60;
  tenant_id = 1;
  dto = record wash { phone = "888"; license_plate = "CC 3" };
}

match_client-match_all_example :
    let first = match_client 32 42 1 wash car_wash in
    let db' = match_all (other_visitor ∷ []) first.1 in
    match_client 33 43 1 unknown_wash db' ≡ (first.0, db')
match_client-match_all_example =
    match_client-match_all 32 42 33 43 1 wash unknown_wash (other_visitor ∷ []) car_wash refl refl
