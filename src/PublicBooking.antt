-- ===== src/PublicBooking.antt =====
-- src/modules/public-booking/public-booking.service.ts: a booking by a client who is not signed in,
-- and `replayPublicBooking` of src/modules/orders/orders.service.ts. The JSON text of the request,
-- `bookingRequest`, is a parameter; the names, the e-mail address and the
-- make of the car that new rows are stored with, the branch in a confirmation and the names of
-- services are left out, since nothing here reads them. Availability models the slots that a visitor
-- is shown.
mod Availability
pub mod Booking
pub mod Laws
mod Matching
pub mod Outcomes
mod Tests
use Prim.Native.String.{String}
use text.Mathlib.Text.{◌==◌ as str_eq}
use wash_flow.Prelude.{
  ℕ, ◌+◌, ◌*◌, Bool, false, not, Option, none, some, List, ◌∷◌, map, ◌&&◌, ◌==◌, is_none, find?,
  sum, Result, ok, err, not_found, conflict, throw_if, if◌then◌else◌,
}
use wash_flow.Database.{Db, Order, OrderLine, web, Client, Vehicle}
use wash_flow.Common.BookingSettings.{ResolvedBookingSettings}
use wash_flow.Scheduling.{validate_no_overlap}
use wash_flow.Orders.Create.{CreateOrderDto, find_by_ids}

pub record Tenant : Type 0 where
  pub id : ℕ
  pub slug : String
  pub is_active : Bool

pub record CreateBookingDto : Type 0 where
  pub branch_id : ℕ
  pub work_post_id : Option ℕ
  pub scheduled_start : ℕ
  pub service_ids : List ℕ
  pub first_name : String
  pub last_name : Option String
  pub phone : String
  pub license_plate : String
  pub vehicle_make : Option String
  pub vehicle_model : Option String
  pub notes : Option String

-- What a booking is confirmed with: of the person and the car only what was submitted.
pub record BookingConfirmation : Type 0 where
  pub id : ℕ
  pub branch_id : ℕ
  pub scheduled_start : ℕ
  pub scheduled_end : ℕ
  pub total_price : ℕ
  pub first_name : String
  pub last_name : Option String
  pub phone : String
  pub license_plate : String
  pub make : Option String
  pub model : Option String
  pub services : List OrderLine

unfoldable pub to_booking_confirmation : Order → CreateBookingDto → BookingConfirmation
to_booking_confirmation order submitted = record {
  id = order.id;
  branch_id = order.branch_id;
  scheduled_start = order.scheduled_start;
  scheduled_end = order.scheduled_end;
  total_price = order.total_price;
  first_name = submitted.first_name;
  last_name = submitted.last_name;
  phone = submitted.phone;
  license_plate = submitted.license_plate;
  make = submitted.vehicle_make;
  model = submitted.vehicle_model;
  services = order.services;
}

abbrev pub if_active : Option Tenant → Result Tenant
if_active none = err (not_found "Car wash not found")
if_active (some tenant) =
    if tenant.is_active then ok tenant else err (not_found "Car wash not found")

unfoldable pub resolve_tenant : List Tenant → String → Result Tenant
resolve_tenant tenants slug = if_active (find? (λ t. str_eq t.slug slug) tenants)

unfoldable pub resolve_tenant_by_id : List Tenant → ℕ → Result Tenant
resolve_tenant_by_id tenants id = if_active (find? (λ t. t.id == id) tenants)

-- `servicesRepo.findByIds` for the tenant, outside a transaction.
abbrev pub asked_duration : Db → ℕ → List ℕ → ℕ
asked_duration db tenant_id ids = sum (map (λ s. s.duration_min) (find_by_ids db tenant_id ids))

-- The check of the work post asked for, before anything is written.
unfoldable pub pre_check : Db → ℕ → CreateBookingDto → ResolvedBookingSettings → Result (Unit {0})
unfolding validate_no_overlap find_by_ids
pre_check db tenant_id dto settings = elim dto.work_post_id [
  | none ↦ ok tt
  | some work_post_id ↦
      throw_if
        (not (
          validate_no_overlap db.orders tenant_id work_post_id dto.scheduled_start
            (dto.scheduled_start + asked_duration db tenant_id dto.service_ids * 60000)
            settings.buffer_time_minutes))
        (conflict "This time slot just became unavailable. Please select a different time.")
]

abbrev pub same_text : Option String → String → Bool
same_text none text' = false
same_text (some s) text' = str_eq s text'

abbrev pub is_client : ℕ → String → Client → Bool
is_client tenant_id phone c =
    c.tenant_id == tenant_id && (same_text c.phone phone && is_none c.deleted_at)

abbrev pub is_vehicle : ℕ → ℕ → String → Vehicle → Bool
is_vehicle tenant_id client_id plate v =
    v.tenant_id == tenant_id
    && (v.client_id == client_id && (same_text v.license_plate plate && is_none v.deleted_at))

unfoldable pub find_or_create_client : ℕ → ℕ → String → Db → ℕ × Db
find_or_create_client new_id tenant_id phone db =
    elim (find? (is_client tenant_id phone) db.clients) [
      | some c ↦ (c.id, db)
      | none ↦ (
        new_id,
        record db {
          clients =
              record { id = new_id; tenant_id = tenant_id; phone = some phone; deleted_at = none }
              ∷ db.clients;
        },
      )
    ]

unfoldable pub find_or_create_vehicle : ℕ → ℕ → ℕ → String → Db → ℕ × Db
find_or_create_vehicle new_id tenant_id client_id plate db =
    elim (find? (is_vehicle tenant_id client_id plate) db.vehicles) [
      | some v ↦ (v.id, db)
      | none ↦ (
        new_id,
        record db {
          vehicles =
              record {
                id = new_id;
                tenant_id = tenant_id;
                client_id = client_id;
                license_plate = some plate;
                deleted_at = none;
              }
              ∷ db.vehicles;
        },
      )
    ]

pub record Matched : Type 0 where
  pub client_id : ℕ
  pub vehicle_id : ℕ

-- The transaction that finds or creates the client and the vehicle.
unfoldable pub match_client : ℕ → ℕ → ℕ → CreateBookingDto → Db → Matched × Db
unfolding find_or_create_client find_or_create_vehicle
match_client new_client_id new_vehicle_id tenant_id dto db =
    let (client_id, db1) = find_or_create_client new_client_id tenant_id dto.phone db in
    let (vehicle_id, db2) =
      find_or_create_vehicle new_vehicle_id tenant_id client_id dto.license_plate db1 in
    (record { client_id = client_id; vehicle_id = vehicle_id }, db2)

unfoldable pub order_dto : CreateBookingDto → Matched → CreateOrderDto
order_dto dto matched = record {
  branch_id = dto.branch_id;
  client_id = matched.client_id;
  vehicle_id = matched.vehicle_id;
  work_post_id = dto.work_post_id;
  assigned_employee_id = none;
  scheduled_start = dto.scheduled_start;
  service_ids = dto.service_ids;
  source = some web;
  notes = dto.notes;
}
