-- ===== src/Orders/Changes.antt =====
-- `reschedule`, `updateStatus`, `softDelete` and `restore` of src/modules/orders/orders.service.ts,
-- with the updates of orders.repository.ts. The clock is read once for a call, `now`.
mod Moves
pub use Moves.{RescheduleOrderDto, Rescheduled, in_scope, is_row, or_keep, moved, is_booked}
unfoldable pub use Moves.{find_order, reschedule_reservation, plan_move, reschedule_tx}
use Prim.Native.String.{String}
use text.Mathlib.Text.{◌==◌ as str_eq}
use wash_flow.Prelude.{
  ℕ, Bool, not, Option, none, some, List, [], ◌∷◌, ◌&&◌, ◌==◌, is_none, is_some, find?,
  update_where, Result, ok, bad_request, not_found, throw_if, or_throw, ◌>>=◌, ◌>>◌, if◌then◌else◌,
  length,
}
use wash_flow.Database.{Db, Order, OrderStatus, cancelled, Branch, find_active_branch}
use wash_flow.Common.Zones.{Zones}
use wash_flow.Common.BookingSettings.{resolve_booking_settings}
use wash_flow.Orders.Status.{includes, valid_status_transitions}
use wash_flow.Orders.Transaction.{DbError, run_reservation_transaction}
use wash_flow.Orders.Employees.{Reservation}
use wash_flow.Orders.Resources.{or_null, reserve_resources}
use wash_flow.Orders.Events.{
  Event, order_status_changed, order_cancelled, order_rescheduled, Done, dispatch_after,
}

-- `if (dto.cancellationReason)`
abbrev new_reason : Option String → Option String → Option String
new_reason none old = old
new_reason (some reason) old = if str_eq reason "" then old else some reason

abbrev pub with_status : OrderStatus → Option String → Order → Order
with_status status reason o = record o {
  status = status;
  cancellation_reason = new_reason reason o.cancellation_reason;
}

pub record StatusChange : Type 0 where
  pub order : Order
  pub updated : Order

-- The body of the transaction of `updateStatus`.
unfoldable pub update_status_tx :
    ℕ → ℕ → OrderStatus → Option String → Option ℕ → Db → Result (StatusChange × Db)
unfolding find_order
update_status_tx tenant_id id status reason branch_id db = do
  current ← or_throw (find_order db tenant_id id branch_id) (not_found "Order not found")
  throw_if (not (includes (valid_status_transitions current.status) status))
      (bad_request "Cannot transition between these statuses")
  ok (
    record { order = current; updated = with_status status reason current },
    record db { orders = update_where (is_row tenant_id id) (with_status status reason) db.orders },
  )

-- `softDelete`: the order is looked up first, and then marked.
unfoldable pub soft_delete : ℕ → ℕ → Option ℕ → ℕ → Db → Result (Order × Db)
unfolding find_order
soft_delete tenant_id id branch_id now db = do
  order ← or_throw (find_order db tenant_id id branch_id) (not_found "Order not found")
  ok (
    record order { deleted_at = some now },
    record db {
      orders =
          update_where (λ o. o.id == id && o.tenant_id == tenant_id)
            (λ o. record o { deleted_at = some now }) db.orders;
    },
  )

abbrev pub is_terminal : OrderStatus → Bool
is_terminal status = length (valid_status_transitions status) == 0

unfoldable pub restore_reservation : ℕ → Order → ℕ → Reservation
restore_reservation tenant_id order buffer_minutes = record {
  tenant_id = tenant_id;
  branch_id = order.branch_id;
  scheduled_start = order.scheduled_start;
  scheduled_end = order.scheduled_end;
  buffer_minutes = buffer_minutes;
  exclude_order_id = none;
}

-- The branch that a restored order needs: a live order needs an active one.
abbrev pub restore_branch : Db → ℕ → Order → Option Branch
restore_branch db tenant_id order =
    if is_terminal order.status
    then find? (λ b. b.id == order.branch_id && b.tenant_id == tenant_id) db.branches
    else find_active_branch tenant_id order.branch_id db.branches

unfoldable pub reserve_again : Zones → ℕ → Db → Order → Result (Unit {0})
reserve_again z tenant_id db order = if is_terminal order.status then ok tt else (do
  let settings = resolve_booking_settings db.booking_settings tenant_id (some order.branch_id)
  resources ←
      reserve_resources z db (restore_reservation tenant_id order settings.buffer_time_minutes)
        (or_null order.work_post_id) (or_null order.assigned_employee_id)
  ok tt)

-- The body of the transaction of `restore`, with `restoreInTransaction`.
unfoldable pub restore_tx : Zones → ℕ → ℕ → Option ℕ → Db → Result (Order × Db)
restore_tx z tenant_id id branch_id db = do
  order ←
      or_throw
        (find? (λ o. o.id == id && (o.tenant_id == tenant_id && in_scope branch_id o)) db.orders)
        (not_found "Order not found")
  throw_if (is_none order.deleted_at) (bad_request "Order is not deleted")
  branch ← or_throw (restore_branch db tenant_id order) (bad_request "Branch not found or inactive")
  reserve_again z tenant_id db order
  ok (
    record order { deleted_at = none },
    record db {
      orders =
          update_where
            (λ o.
              o.id == id
              && (o.tenant_id == tenant_id
                  && (o.branch_id == order.branch_id && is_some o.deleted_at)))
            (λ o. record o { deleted_at = none }) db.orders;
    },
  )

-- The events of `updateStatus`.
abbrev status_events : ℕ → ℕ → OrderStatus → Option String → StatusChange → List Event
status_events id user_id status reason c =
    let changed = order_status_changed id c.order.branch_id c.order.status status user_id in
    elim status [
      | cancelled ↦ changed ∷ order_cancelled id c.order.branch_id reason user_id ∷ []
      | _ ↦ changed ∷ []
    ]

abbrev reschedule_events : ℕ → Rescheduled → List Event
reschedule_events user_id r =
    if r.changed then order_rescheduled user_id r.order r.updated ∷ [] else []

module _ (engine : ℕ → Option DbError) where
  unfoldable pub reschedule :
      Zones → ℕ → ℕ → RescheduleOrderDto → ℕ → Option ℕ → ℕ → Db → Option (Done Order)
  reschedule z tenant_id id dto user_id user_branch_id now db =
      dispatch_after (λ r. r.updated) (reschedule_events user_id)
        (run_reservation_transaction engine (reschedule_tx z tenant_id id now dto user_branch_id)
          db)

  unfoldable pub update_status :
      ℕ → ℕ → OrderStatus → Option String → ℕ → Option ℕ → Db → Option (Done Order)
  update_status tenant_id id status reason user_id branch_id db =
      dispatch_after (λ c. c.updated) (status_events id user_id status reason)
        (run_reservation_transaction engine (update_status_tx tenant_id id status reason branch_id)
          db)

  unfoldable pub restore : Zones → ℕ → ℕ → Option ℕ → Db → Option (Done Order)
  restore z tenant_id id branch_id db =
      dispatch_after (λ o. o) (λ _. [])
        (run_reservation_transaction engine (restore_tx z tenant_id id branch_id) db)
