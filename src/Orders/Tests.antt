-- ===== src/Orders/Tests.antt =====
-- The laws of the orders service at a small car wash.
mod Reservations
use wash_flow.Orders.Resources.{first_free_post, reserve_post, reserve_resources, resolve_work_post}
use wash_flow.Common.WorkingWindow.{segments, working_window_for_interval}
use wash_flow.Idempotency.{request_identity}
use wash_flow.Common.BookingSettings.{resolve_booking_settings}
use wash_flow.Orders.Employees.{employee_eligibility_where, reserve_employee}
use wash_flow.Scheduling.{reserve_slot}
use wash_flow.Orders.Status.{valid_status_transitions}
use Prim.Native.String.{String}
use wash_flow.Prelude.{
  ◌≢◌, ◌⊎◌, Option, ℕ, ℕ, ◌≡◌, refl, none, some, Option, [], ◌∷◌, ok, true, ◌<◌, sort_by,
}
use wash_flow.Database.{Db, Order, booked, in_progress, is_active_status, find_active_branch}
use wash_flow.Common.WorkingWindow.Tests.{utc}
use wash_flow.Orders.Transaction.{DbError, returned, attempts, run_reservation_transaction}
use wash_flow.Orders.Create.{
  CreateOrderDto, insert_order, create, create_tx, enforce_booking_constraints, order_of, order_of,
  plan_order, resolve_services_and_pricing, validate_branch_scope,
  validate_client_vehicle_ownership,
}
use wash_flow.Orders.Create.Laws.{IsPriced, insert_order-IsPriced}
use wash_flow.Orders.Changes.{StatusChange, find_order, update_status_tx, update_status}
use wash_flow.Orders.Status.Laws.{progress, update_status_tx-rises}
use wash_flow.Orders.Fixture.{car_wash, wash_at_nine, first_order, booked_wash}
use wash_flow.Orders.Events.{Done, order_created, order_status_changed, dispatch_after}
use wash_flow.Orders.Safety.{IsSafe}
use wash_flow.Orders.Safety.Service.{here, next, creates, updates_status, Reach-IsSafe}

books :
    insert_order utc 1 1 wash_at_nine (some 9) none 1000 car_wash ≡ ok (first_order, booked_wash)
unfolding insert_order plan_order validate_client_vehicle_ownership resolve_services_and_pricing
    find_active_branch enforce_booking_constraints resolve_booking_settings reserve_resources
    resolve_work_post first_free_post sort_by reserve_post reserve_slot reserve_employee
    working_window_for_interval segments employee_eligibility_where order_of
books = refl

insert_order-IsPriced_example : IsPriced car_wash 1 wash_at_nine 1000 first_order
insert_order-IsPriced_example =
    insert_order-IsPriced utc 1 1 wash_at_nine (some 9) none 1000 car_wash booked_wash first_order
      books

-- No conflict is reported.
abbrev calm : ℕ → Option DbError
calm n = none

abbrev no_digest : String → String
no_digest s = s

abbrev no_text : CreateOrderDto → String
no_text dto = ""

abbrev created : Done Order
created = record {
  outcome = returned first_order;
  db = booked_wash;
  events = order_created first_order ∷ [];
}

creates_order :
    create utc no_digest no_text calm 1 1 wash_at_nine (some 9) none none none 1000 car_wash
    ≡ ok (some created)
unfolding create insert_order plan_order validate_client_vehicle_ownership
    resolve_services_and_pricing find_active_branch enforce_booking_constraints
    resolve_booking_settings reserve_resources resolve_work_post first_free_post sort_by
    reserve_post reserve_slot reserve_employee working_window_for_interval segments
    employee_eligibility_where order_of create_tx dispatch_after run_reservation_transaction
    validate_branch_scope request_identity attempts
creates_order = refl

abbrev in_wash : Order
in_wash = record first_order { status = in_progress }

abbrev started_wash : Db
started_wash = record car_wash { orders = in_wash ∷ [] }

abbrev start_change : StatusChange
start_change = record { order = first_order; updated = in_wash }

starts : update_status_tx 1 1 in_progress none none booked_wash ≡ ok (start_change, started_wash)
unfolding update_status_tx valid_status_transitions
starts = refl

update_status_tx-rises_example :
    (find_order booked_wash 1 1 none ≡ some first_order)
    × (is_active_status booked ≡ true)
    × (in_progress ≡ in_progress)
    × (progress booked < progress in_progress)
    × (find_order started_wash 1 1 none ≡ some in_wash)
    × ((other_tenant other : ℕ) (scope : Option ℕ)
        → (other_tenant ≢ 1) ⊎ (other ≢ 1)
        → find_order started_wash other_tenant other scope
          ≡ find_order booked_wash other_tenant other scope)
update_status_tx-rises_example =
    update_status_tx-rises 1 1 in_progress none none booked_wash started_wash start_change starts

abbrev started : Done Order
started = record {
  outcome = returned in_wash;
  db = started_wash;
  events = order_status_changed 1 2 booked in_progress 9 ∷ [];
}

starts_order : update_status calm 1 1 in_progress none 9 none booked_wash ≡ some started
unfolding update_status update_status_tx find_order dispatch_after run_reservation_transaction
    attempts valid_status_transitions
starts_order = refl

Reach-IsSafe_example : IsSafe started_wash.orders
Reach-IsSafe_example =
    Reach-IsSafe utc no_digest no_text {db = car_wash} {db' = started_wash}
      (next
        (next here
          (creates calm 1 1 wash_at_nine (some 9) none none none 1000 created tt creates_order))
        (updates_status calm 1 1 in_progress none 9 none started starts_order))
      (record { posts = tt; employees = tt })
