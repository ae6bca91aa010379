-- ===== src/Orders/Create.antt =====
-- `create` of src/modules/orders/orders.service.ts. The clock is read once for a call, `now`; the
-- identifier of the new row is the argument `new_id`.
mod Checks
pub mod Laws
pub use Checks.{Pricing}
unfoldable pub use Checks.{
  validate_branch_scope, validate_client_vehicle_ownership, find_by_ids,
  resolve_services_and_pricing, enforce_booking_constraints,
}
use Prim.Native.String.{String}
use wash_flow.Prelude.{
  ◌>>=◌, ◌>>◌, ℕ, ◌+◌, ◌*◌, Bool, true, false, not, Option, none, some, List, [], ◌∷◌, map, ◌&&◌,
  ltb, ◌==◌, is_none, get_or, find?, length, Result, ok, bad_request, not_found, throw_if, or_throw,
  if◌then◌else◌,
}
use wash_flow.Database.{
  Db, Order, OrderLine, OrderSource, OrderStatus, internal, web, booked,
  booked_pending_confirmation, Service, find_active_branch,
}
use wash_flow.Common.Zones.{Zones}
use wash_flow.Common.BookingSettings.{resolve_booking_settings}
use wash_flow.Idempotency.{
  RequestIdentity, RequestClaim, fresh, replay, order_v1, request_identity, claim_request,
  save_request,
}
use wash_flow.Orders.Transaction.{DbError, run_reservation_transaction}
use wash_flow.Orders.Employees.{Reservation}
use wash_flow.Orders.Resources.{or_undefined, Resources, reserve_resources}
use wash_flow.Orders.Events.{Event, order_created, Done, dispatch_after}

pub record CreateOrderDto : Type 0 where
  pub branch_id : ℕ
  pub client_id : ℕ
  pub vehicle_id : ℕ
  pub work_post_id : Option ℕ
  pub assigned_employee_id : Option ℕ
  pub scheduled_start : ℕ
  pub service_ids : List ℕ
  pub source : Option OrderSource
  pub notes : Option String

-- The status that an order of this source starts in.
abbrev pub initial_status : OrderSource → OrderStatus
initial_status web = booked_pending_confirmation
initial_status _ = booked

abbrev pub order_line : Service → OrderLine
order_line s = record { service_id = s.id; price = s.price; quantity = 1 }

-- The times, resources and price of a new order.
pub record Plan : Type 0 where
  pub pricing : Pricing
  pub scheduled_end : ℕ
  pub resources : Resources

unfoldable pub reservation_of : ℕ → CreateOrderDto → ℕ → ℕ → Reservation
reservation_of tenant_id dto scheduled_end buffer_minutes = record {
  tenant_id = tenant_id;
  branch_id = dto.branch_id;
  scheduled_start = dto.scheduled_start;
  scheduled_end = scheduled_end;
  buffer_minutes = buffer_minutes;
  exclude_order_id = none;
}

module _ (z : Zones) where
  -- The checks of `create` on a request that is not a replay, up to the reservation, and the
  -- reservation itself.
  unfoldable pub plan_order : Db → ℕ → CreateOrderDto → ℕ → Result Plan
  unfolding reservation_of
  plan_order db tenant_id dto now = do
    throw_if (length dto.service_ids == 0) (bad_request "At least one service is required")
    throw_if (ltb dto.scheduled_start now) (bad_request "Cannot schedule orders in the past")
    validate_client_vehicle_ownership db tenant_id dto.client_id dto.vehicle_id
    pricing ← resolve_services_and_pricing db tenant_id dto.service_ids
    let scheduled_end = dto.scheduled_start + pricing.total_duration * 60000
    let settings = resolve_booking_settings db.booking_settings tenant_id (some dto.branch_id)
    branch ←
        or_throw (find_active_branch tenant_id dto.branch_id db.branches)
          (bad_request "Branch not found or inactive")
    enforce_booking_constraints z dto.scheduled_start settings.working_days
        settings.max_advance_booking_days (get_or branch.timezone "UTC") now
    resources ←
        reserve_resources z db
          (reservation_of tenant_id dto scheduled_end settings.buffer_time_minutes)
          (or_undefined dto.work_post_id) (or_undefined dto.assigned_employee_id)
    ok (record { pricing = pricing; scheduled_end = scheduled_end; resources = resources })

-- The row that `tx.order.create` inserts.
unfoldable pub order_of : ℕ → ℕ → CreateOrderDto → Option ℕ → Plan → Order
order_of new_id tenant_id dto user_id plan = record {
  id = new_id;
  tenant_id = tenant_id;
  branch_id = dto.branch_id;
  client_id = dto.client_id;
  vehicle_id = dto.vehicle_id;
  work_post_id = plan.resources.work_post_id;
  assigned_employee_id = plan.resources.assigned_employee_id;
  created_by_id = user_id;
  status = initial_status (get_or dto.source internal);
  source = get_or dto.source internal;
  scheduled_start = dto.scheduled_start;
  scheduled_end = plan.scheduled_end;
  total_price = plan.pricing.total_price;
  notes = dto.notes;
  cancellation_reason = none;
  deleted_at = none;
  services = map order_line plan.pricing.services;
}

-- The order that a replayed request gets.
unfoldable pub find_cached : Db → ℕ → ℕ → Option ℕ → ℕ → Option Order
find_cached db tenant_id branch_id user_branch_id id =
    find?
      (λ o.
        o.id == id
        && (o.tenant_id == tenant_id
            && (o.branch_id == get_or user_branch_id branch_id && is_none o.deleted_at)))
      db.orders

pub record Created : Type 0 where
  pub order : Order
  pub is_replay : Bool

module _ (z : Zones) (new_id tenant_id : ℕ) (dto : CreateOrderDto)
    (user_id user_branch_id : Option ℕ) (now : ℕ) where
  unfoldable pub insert_order : Db → Result (Order × Db)
  insert_order db = do
    plan ← plan_order z db tenant_id dto now
    let order = order_of new_id tenant_id dto user_id plan
    ok (order, record db { orders = order ∷ db.orders })

  unfoldable pub save_resource : RequestIdentity → Order × Db → Created × Db
  save_resource identity (order, db) = (
    record { order = order; is_replay = false },
    record db { idempotency_keys = save_request db.idempotency_keys identity order.id },
  )

  unfoldable pub claimed : RequestIdentity → RequestClaim → Db → Result (Created × Db)
  unfolding save_resource
  claimed identity (replay id) db = do
    cached ←
        or_throw (find_cached db tenant_id dto.branch_id user_branch_id id)
          (not_found "Order not found")
    ok (record { order = cached; is_replay = true }, db)
  claimed identity fresh db = do ok (save_resource identity (← insert_order db))

  -- The body of the transaction of `create`.
  unfoldable pub create_tx : Option RequestIdentity → Db → Result (Created × Db)
  unfolding claimed
  create_tx none db = do
    (order, db') ← insert_order db
    ok (record { order = order; is_replay = false }, db')
  create_tx (some identity) db = do
    (claim, keys) ← claim_request db.idempotency_keys identity now
    claimed identity claim (record db { idempotency_keys = keys })

-- What SHA-256 is taken of: an anonymous request's own text, or that of the fields of the dto.
abbrev pub payload_text : (CreateOrderDto → String) → Option String → CreateOrderDto → String
payload_text dto_text (some anonymous) dto = anonymous
payload_text dto_text none dto = dto_text dto

abbrev pub request_path : Option String → String
request_path (some anonymous) = "/public/book"
request_path none = "/orders"

abbrev pub created_events : Created → List Event
created_events c = if c.is_replay then [] else order_created c.order ∷ []

module _ (z : Zones) (digest : String → String) (dto_text : CreateOrderDto → String)
    (engine : ℕ → Option DbError) where
  -- `OrdersService.create`
  unfoldable pub create :
      (new_id tenant_id : ℕ)
      → CreateOrderDto
      → Option ℕ
      → Option String
      → Option ℕ
      → Option String
      → ℕ
      → Db
      → Result (Option (Done Order))
  unfolding validate_branch_scope request_identity dispatch_after run_reservation_transaction
      create_tx
  create new_id tenant_id dto user_id idempotency_key user_branch_id anonymous now db = do
    validate_branch_scope dto.branch_id user_branch_id
    identity ←
        request_identity digest tenant_id idempotency_key "POST" (request_path anonymous) order_v1
          user_id (payload_text dto_text anonymous dto)
    ok (
        dispatch_after (λ c. c.order) created_events
          (run_reservation_transaction engine
            (create_tx z new_id tenant_id dto user_id user_branch_id now identity) db))
