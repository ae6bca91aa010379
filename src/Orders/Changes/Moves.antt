-- ===== src/Orders/Changes/Moves.antt =====
-- The transaction of `reschedule` of src/modules/orders/orders.service.ts, with `rescheduleTx` of
-- orders.repository.ts. The clock is read once for a call, `now`.
use wash_flow.Prelude.{
  ℕ, ◌+◌, ◌-◌, Bool, true, false, not, Option, none, some, ◌&&◌, ◌||◌, ltb, leb, ◌==◌, is_none,
  get_or, find?, update_where, Result, ok, bad_request, not_found, throw_if, or_throw, ◌>>=◌, ◌>>◌,
}
use wash_flow.Database.{
  Db, Order, OrderStatus, booked, booked_pending_confirmation, find_active_branch,
}
use wash_flow.Common.Zones.{Zones}
use wash_flow.Common.BookingSettings.{resolve_booking_settings}
use wash_flow.Orders.Employees.{Reservation}
use wash_flow.Orders.Resources.{Choice, null, given, Resources, reserve_resources}
use wash_flow.Orders.Create.{enforce_booking_constraints}

-- `branchId !== null ? { branchId } : {}`
abbrev pub in_scope : Option ℕ → Order → Bool
in_scope none o = true
in_scope (some branch_id) o = o.branch_id == branch_id

-- `{ id, tenantId, deletedAt: null }`, the key of an update.
abbrev pub is_row : ℕ → ℕ → Order → Bool
is_row tenant_id id o = o.id == id && (o.tenant_id == tenant_id && is_none o.deleted_at)

unfoldable pub find_order : Db → ℕ → ℕ → Option ℕ → Option Order
find_order db tenant_id id branch_id =
    find? (λ o. is_row tenant_id id o && in_scope branch_id o) db.orders

pub record RescheduleOrderDto : Type 0 where
  pub scheduled_start : ℕ
  pub work_post_id : Option ℕ
  pub assigned_employee_id : Option ℕ

-- `dto.x === undefined ? order.x : dto.x`, where the order's own value may be null.
abbrev pub or_keep : Option ℕ → Option ℕ → Choice
or_keep (some id) own = given id
or_keep none (some id) = given id
or_keep none none = null

abbrev pub moved : ℕ → ℕ → Resources → Order → Order
moved scheduled_start scheduled_end r o = record o {
  scheduled_start = scheduled_start;
  scheduled_end = scheduled_end;
  work_post_id = r.work_post_id;
  assigned_employee_id = r.assigned_employee_id;
}

abbrev option_ne : Option ℕ → Option ℕ → Bool
option_ne none none = false
option_ne (some a) (some b) = not (a == b)
option_ne _ _ = true

abbrev pub is_booked : OrderStatus → Bool
is_booked booked = true
is_booked booked_pending_confirmation = true
is_booked _ = false

pub record Rescheduled : Type 0 where
  pub order : Order
  pub updated : Order
  pub changed : Bool

unfoldable pub reschedule_reservation : ℕ → ℕ → Order → ℕ → ℕ → ℕ → Reservation
reschedule_reservation tenant_id id order scheduled_start scheduled_end buffer_minutes = record {
  tenant_id = tenant_id;
  branch_id = order.branch_id;
  scheduled_start = scheduled_start;
  scheduled_end = scheduled_end;
  buffer_minutes = buffer_minutes;
  exclude_order_id = some id;
}

module _ (z : Zones) (tenant_id id : ℕ) (now : ℕ) where
  -- The reservation that moves `order`, after its checks.
  unfoldable pub plan_move : RescheduleOrderDto → Db → Order → Result Resources
  unfolding reschedule_reservation
  plan_move dto db order = do
    throw_if (not (is_booked order.status)) (bad_request "Only booked orders can be rescheduled")
    throw_if (ltb dto.scheduled_start now) (bad_request "Cannot schedule orders in the past")
    throw_if (leb order.scheduled_end order.scheduled_start)
        (bad_request "Order has an invalid stored duration")
    let scheduled_end = dto.scheduled_start + (order.scheduled_end - order.scheduled_start)
    branch ←
        or_throw (find_active_branch tenant_id order.branch_id db.branches)
          (bad_request "Branch not found or inactive")
    let settings = resolve_booking_settings db.booking_settings tenant_id (some order.branch_id)
    enforce_booking_constraints z dto.scheduled_start settings.working_days
        settings.max_advance_booking_days (get_or branch.timezone "UTC") now
    reserve_resources z db
        (reschedule_reservation tenant_id id order dto.scheduled_start scheduled_end
          settings.buffer_time_minutes)
        (or_keep dto.work_post_id order.work_post_id)
        (or_keep dto.assigned_employee_id order.assigned_employee_id)

  -- The body of the transaction of `reschedule`, with `rescheduleTx`.
  unfoldable pub reschedule_tx : RescheduleOrderDto → Option ℕ → Db → Result (Rescheduled × Db)
  unfolding find_order
  reschedule_tx dto user_branch_id db = do
    order ← or_throw (find_order db tenant_id id user_branch_id) (not_found "Order not found")
    resources ← plan_move dto db order
    let move =
        moved dto.scheduled_start
          (dto.scheduled_start + (order.scheduled_end - order.scheduled_start)) resources
    ok (
      record {
        order = order;
        updated = move order;
        changed =
            not (dto.scheduled_start == order.scheduled_start)
            || (option_ne resources.work_post_id order.work_post_id
                || option_ne resources.assigned_employee_id order.assigned_employee_id);
      },
      record db { orders = update_where (is_row tenant_id id) move db.orders },
    )
