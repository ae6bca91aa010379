-- ===== src/Orders/Create/Checks.antt =====
-- The checks that `create` of src/modules/orders/orders.service.ts makes of a request, and its
-- prices; `findByIds` stands in src/modules/services/services.repository.ts.
use Prim.Native.String.{String}
use wash_flow.Prelude.{
  ℕ, not, Option, none, some, List, map, ◌&&◌, ◌==◌, is_none, find?, filter, length, contains, sum,
  Result, ok, err, bad_request, throw_if, or_throw, ◌>>=◌, ◌>>◌, if◌then◌else◌,
}
use wash_flow.Database.{Db, Service}
use wash_flow.Common.Zones.{Zones}
use wash_flow.Common.BranchDay.{branch_calendar_day, booking_day_restrictions}

unfoldable pub validate_branch_scope : ℕ → Option ℕ → Result (Unit {0})
validate_branch_scope target_branch_id none = ok tt
validate_branch_scope target_branch_id (some user_branch_id) =
    throw_if (not (target_branch_id == user_branch_id))
      (bad_request "Cannot create orders for a different branch")

unfoldable pub validate_client_vehicle_ownership : Db → ℕ → ℕ → ℕ → Result (Unit {0})
validate_client_vehicle_ownership db tenant_id client_id vehicle_id = do
  client ←
      or_throw
        (find? (λ c. c.id == client_id && (c.tenant_id == tenant_id && is_none c.deleted_at))
          db.clients)
        (bad_request "Client not found in this tenant")
  vehicle ←
      or_throw
        (find? (λ v. v.id == vehicle_id && (v.tenant_id == tenant_id && is_none v.deleted_at))
          db.vehicles)
        (bad_request "Vehicle not found in this tenant")
  throw_if (not (vehicle.client_id == client_id))
      (bad_request "Vehicle does not belong to this client")

pub record Pricing : Type 0 where
  pub services : List Service
  pub total_price : ℕ
  pub total_duration : ℕ

-- `servicesRepo.findByIds` in a transaction.
unfoldable pub find_by_ids : Db → ℕ → List ℕ → List Service
find_by_ids db tenant_id ids =
    filter
      (λ s.
        contains ids s.id && (s.is_active && (s.tenant_id == tenant_id && is_none s.deleted_at)))
      db.services

unfoldable pub resolve_services_and_pricing : Db → ℕ → List ℕ → Result Pricing
unfolding find_by_ids
resolve_services_and_pricing db tenant_id service_ids =
    let services = find_by_ids db tenant_id service_ids in
    if not (length services == length service_ids)
    then err (bad_request "One or more services not found or inactive")
    else ok (record {
      services = services;
      total_price = sum (map (λ s. s.price) services);
      total_duration = sum (map (λ s. s.duration_min) services);
    })

module _ (z : Zones) where
  unfoldable pub enforce_booking_constraints : ℕ → List ℕ → ℕ → String → ℕ → Result (Unit {0})
  unfolding booking_day_restrictions branch_calendar_day
  enforce_booking_constraints scheduled_start working_days max_advance_booking_days timezone now =
      do
        let restrictions =
            booking_day_restrictions z (branch_calendar_day z scheduled_start timezone) timezone
              working_days max_advance_booking_days now
        throw_if (not restrictions.is_working_day)
            (bad_request "Booking is not allowed on this day of the week")
        throw_if (not restrictions.is_within_advance)
            (bad_request "Cannot book more than the allowed days in advance")
