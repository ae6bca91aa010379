-- ===== src/Orders/Tests/Reservations.antt =====
-- The laws of reservations, their transactions and request keys at a small car wash.
use mathlib.Core.List.{Memᴰ}
use wash_flow.Orders.Status.{valid_status_transitions}
use wash_flow.Common.BookingSettings.{resolve_booking_settings}
use wash_flow.Occupancy.{busy}
use wash_flow.Scheduling.{reserve_slot}
use wash_flow.Prelude.{
  get_or, ◌==◌, if◌then◌else◌, ℕ, ◌+◌, ◌*◌, ◌≡◌, ◌↔◌, refl, true, false, none, some, Option, List,
  [], ◌∷◌, ok, err, arith, All, bad_request, not_found, sort_by,
}
use wash_flow.Database.{Db, Order, EmployeeProfile, Branch, find_active_branch}
use wash_flow.Common.WorkingWindow.{WorkingWindow, segments, working_window_for_interval}
use wash_flow.Common.WorkingWindow.Tests.{utc}
use wash_flow.Idempotency.{RequestIdentity, order_v1, claim_request, request_identity, save_request}
use wash_flow.Orders.Transaction.{
  DbError, known_request_error, run_reservation_transaction, returned, attempts,
  is_reservation_conflict,
}
use wash_flow.Orders.Transaction.Laws.{
  IsRetried, Ends, exhausted, run_reservation_transaction_attempts,
}
use wash_flow.Orders.Employees.{Reservation, employee_eligibility_where, reserve_employee}
use wash_flow.Orders.Employees.Laws.{reserve_employee-eligible}
use wash_flow.Orders.Resources.{
  or_null, Resources, first_free_post, reserve_resources, reserve_post, resolve_work_post,
}
use wash_flow.Orders.Resources.FirstFree.{IsFirstFree, IsTaken, first_free_post-first}
use wash_flow.Orders.Create.{
  Created, create_tx, find_cached, claimed, enforce_booking_constraints, insert_order, order_of,
  plan_order, resolve_services_and_pricing, validate_branch_scope,
  validate_client_vehicle_ownership,
}
use wash_flow.Orders.Create.Laws.{create_tx-replays}
use wash_flow.Orders.Changes.{StatusChange, update_status_tx}
use wash_flow.Orders.Events.{Event, Done, dispatch_after}
use wash_flow.Orders.Events.Laws.{IsDone, dispatch_after-IsDone}
use wash_flow.Orders.Fixture.{nine, car_wash, wash_at_nine, first_order, booked_wash}
use wash_flow.Orders.Tests.{in_wash, started_wash}

-- Another wash at a quarter past nine: the first post and the worker are taken.
abbrev at_quarter : Reservation
at_quarter = record {
  tenant_id = 1;
  branch_id = 2;
  scheduled_start = nine + 15 * 60000;
  scheduled_end = nine + 45 * 60000;
  buffer_minutes = 10;
  exclude_order_id = none;
}

abbrev at_noon : Reservation
at_noon = record at_quarter {
  scheduled_start = nine + 180 * 60000;
  scheduled_end = nine + 210 * 60000;
}

second_post : first_free_post booked_wash at_quarter booked_wash.work_posts ≡ ok 12
unfolding first_free_post reserve_post reserve_slot busy
second_post = refl

first_free_post-first_example :
    ((id : ℕ)
      → first_free_post booked_wash at_quarter booked_wash.work_posts ≡ ok id
      → IsFirstFree booked_wash at_quarter booked_wash.work_posts id)
    × ((first_free_post booked_wash at_quarter booked_wash.work_posts
          ≡ err (bad_request "No available work posts for the requested time"))
        ↔ All (IsTaken booked_wash at_quarter) booked_wash.work_posts)
first_free_post-first_example = first_free_post-first booked_wash at_quarter booked_wash.work_posts

worker_at_noon : reserve_employee utc booked_wash at_noon none ≡ ok (some 21)
unfolding reserve_employee working_window_for_interval segments sort_by employee_eligibility_where
    busy
worker_at_noon = refl

reserve_employee-eligible_example :
    (window : WorkingWindow) × (e : EmployeeProfile) × (branch : Branch)
    × (employee_eligibility_where booked_wash at_noon window e ≡ true)
    × (e.id ≡ 21)
    × Memᴰ e booked_wash.employee_profiles
    × (find_active_branch 1 2 booked_wash.branches ≡ some branch)
    × (working_window_for_interval utc
          (get_or branch.timezone "UTC")
          at_noon.scheduled_start
          at_noon.scheduled_end
        ≡ some window)
reserve_employee-eligible_example =
    reserve_employee-eligible utc booked_wash at_noon none 21 worker_at_noon

abbrev noon_resources : Resources
noon_resources = record { work_post_id = none; assigned_employee_id = some 21 }

reserves_noon :
    reserve_resources utc booked_wash at_noon (or_null none) (or_null (some 21)) ≡ ok noon_resources
unfolding reserve_resources reserve_employee working_window_for_interval segments
    employee_eligibility_where busy
reserves_noon = refl

-- The first attempt meets a write conflict.
abbrev busy_once : ℕ → Option DbError
busy_once n = if n == 1 then some (known_request_error "P2034" none) else none

abbrev starting : Db → wash_flow.Prelude.Result (StatusChange × Db)
starting = update_status_tx 1 1 wash_flow.Database.in_progress none none

run_reservation_transaction_attempts_example :
    let r = run_reservation_transaction busy_once starting booked_wash in
    Ends busy_once starting 1 booked_wash r
    × (IsRetried busy_once starting 1 → Ends busy_once starting 2 booked_wash r)
    × (IsRetried busy_once starting 1
        → IsRetried busy_once starting 2
        → Ends busy_once starting 3 booked_wash r)
    × (IsRetried busy_once starting 1
        → IsRetried busy_once starting 2
        → IsRetried busy_once starting 3
        → r ≡ some (exhausted busy_once starting booked_wash))
run_reservation_transaction_attempts_example =
    run_reservation_transaction_attempts busy_once starting booked_wash

abbrev no_events : StatusChange → List Event
no_events c = []

abbrev started_once : Done Order
started_once = record { outcome = returned in_wash; db = started_wash; events = [] }

starts_on_retry :
    dispatch_after
      (λ c. c.updated)
      no_events
      (run_reservation_transaction busy_once starting booked_wash)
    ≡ some started_once
unfolding dispatch_after run_reservation_transaction attempts is_reservation_conflict
    update_status_tx valid_status_transitions
starts_on_retry = refl

dispatch_after-IsDone_example : IsDone starting (λ c. c.updated) no_events booked_wash started_once
dispatch_after-IsDone_example =
    dispatch_after-IsDone busy_once starting (λ c. c.updated) no_events booked_wash started_once
      starts_on_retry

abbrev keyed : RequestIdentity
keyed = record {
  tenant_id = 1;
  key = "k-1";
  method = "POST";
  path = "/orders";
  kind = order_v1;
  actor_id = some 9;
  fingerprint = "abc";
}

abbrev first_created : Created
first_created = record { order = first_order; is_replay = false }

abbrev keyed_wash : Db
keyed_wash = record booked_wash {
  idempotency_keys =
      record {
        key = "k-1";
        tenant_id = 1;
        method = "POST";
        path = "/orders";
        status_code = 201;
        response_body = wash_flow.Database.envelope "order-v1" (some 9) "abc" (some 1);
        expires_at = 86401000;
      }
      ∷ [];
}

creates_keyed :
    create_tx utc 1 1 wash_at_nine (some 9) none 1000 (some keyed) car_wash
    ≡ ok (first_created, keyed_wash)
unfolding insert_order plan_order validate_client_vehicle_ownership resolve_services_and_pricing
    find_active_branch enforce_booking_constraints resolve_booking_settings reserve_resources
    resolve_work_post first_free_post sort_by reserve_post reserve_slot reserve_employee
    working_window_for_interval segments employee_eligibility_where order_of create_tx
    dispatch_after run_reservation_transaction validate_branch_scope request_identity attempts
    claim_request claimed save_request
creates_keyed = refl

create_tx-replays_example :
    let again = create_tx utc 2 1 wash_at_nine (some 9) none 5000 (some keyed) keyed_wash in
    let found = find_cached keyed_wash 1 2 none 1 in
    ((o : Order) → found ≡ some o → again ≡ ok (record { order = o; is_replay = true }, keyed_wash))
    × (found ≡ none → again ≡ err (not_found "Order not found"))
create_tx-replays_example =
    create_tx-replays utc 1 2 1 wash_at_nine (some 9) none keyed 1000 5000 car_wash keyed_wash
      keyed_wash first_created creates_keyed refl (omega arith) refl
