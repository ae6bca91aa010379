-- ===== src/Orders/Fixture.antt =====
-- A car wash with one branch, two work posts and a worker, for the tests.
use wash_flow.Prelude.{ℕ, ◌+◌, ◌*◌, true, none, some, [], ◌∷◌}
use wash_flow.Database.{Db, Order, booked, internal}
use wash_flow.Orders.Create.{CreateOrderDto}

-- Monday, 1970-01-05, at 09:00 in UTC.
abbrev pub nine : ℕ
nine = (4 * 1440 + 540) * 60000

abbrev pub car_wash : Db
car_wash = record {
  orders = [];
  work_posts =
      record { id = 11; tenant_id = 1; branch_id = 2; is_active = true; deleted_at = none }
      ∷ record { id = 12; tenant_id = 1; branch_id = 2; is_active = true; deleted_at = none }
      ∷ [];
  branches =
      record { id = 2; tenant_id = 1; is_active = true; deleted_at = none; timezone = some "UTC" }
      ∷ [];
  employee_profiles =
      record {
        id = 21;
        tenant_id = 1;
        branch_id = 2;
        is_worker = true;
        active = true;
        work_start_time = some 480;
        work_end_time = some 1200;
        deleted_at = none;
        user = record { tenant_id = 1; is_active = true; deleted_at = none };
      }
      ∷ [];
  clients = record { id = 31; tenant_id = 1; phone = some "555"; deleted_at = none } ∷ [];
  vehicles =
      record {
        id = 41;
        tenant_id = 1;
        client_id = 31;
        license_plate = some "AA 1";
        deleted_at = none;
      }
      ∷ [];
  services =
      record {
        id = 51;
        tenant_id = 1;
        is_active = true;
        duration_min = 30;
        price = 2500;
        deleted_at = none;
      }
      ∷ [];
  booking_settings = [];
  payments = [];
  idempotency_keys = [];
}

abbrev pub wash_at_nine : CreateOrderDto
wash_at_nine = record {
  branch_id = 2;
  client_id = 31;
  vehicle_id = 41;
  work_post_id = none;
  assigned_employee_id = none;
  scheduled_start = nine;
  service_ids = 51 ∷ [];
  source = none;
  notes = none;
}

-- The order that it makes.
abbrev pub first_order : Order
first_order = record {
  id = 1;
  tenant_id = 1;
  branch_id = 2;
  client_id = 31;
  vehicle_id = 41;
  work_post_id = some 11;
  assigned_employee_id = some 21;
  created_by_id = some 9;
  status = booked;
  source = internal;
  scheduled_start = nine;
  scheduled_end = nine + 30 * 60000;
  total_price = 2500;
  notes = none;
  cancellation_reason = none;
  deleted_at = none;
  services = record { service_id = 51; price = 2500; quantity = 1 } ∷ [];
}

abbrev pub booked_wash : Db
booked_wash = record car_wash { orders = first_order ∷ [] }
