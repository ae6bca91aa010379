-- ===== src/Orders/Maintenance.antt =====
-- The writes of orders outside the orders service: the timeout of a confirmation
-- (src/modules/jobs/processors/booking-confirmation.processor.ts), what the hard-delete cleanup does to
-- orders and their payments (src/modules/cleanup/cleanup.service.ts), and what a merge of two clients
-- does to orders (src/modules/clients/clients.repository.ts).
use wash_flow.Prelude.{
  ℕ, Bool, true, false, not, Option, none, some, ◌&&◌, ltb, ◌==◌, any, filter, update_where,
}
use wash_flow.Database.{Db, Order, OrderStatus, booked_pending_confirmation, cancelled}

abbrev is_pending : OrderStatus → Bool
is_pending booked_pending_confirmation = true
is_pending _ = false

abbrev pub is_waiting : ℕ → ℕ → Order → Bool
is_waiting tenant_id id o = o.id == id && (o.tenant_id == tenant_id && is_pending o.status)

abbrev pub timed_out : Order → Order
timed_out o = record o {
  status = cancelled;
  cancellation_reason = some "Auto-cancelled: confirmation timeout";
}

unfoldable pub handle_confirmation_timeout : ℕ → ℕ → Db → Db
handle_confirmation_timeout tenant_id id db = record db {
  orders = update_where (is_waiting tenant_id id) timed_out db.orders;
}

abbrev pub deleted_before : ℕ → Option ℕ → Bool
deleted_before cutoff none = false
deleted_before cutoff (some t) = ltb t cutoff

-- Payments go with their orders, and so do the lines that a row of an order holds.
unfoldable pub delete_old_orders : ℕ → Db → Db
delete_old_orders cutoff db = record db {
  payments =
      filter
        (λ p. not (any (λ o. o.id == p.order_id && deleted_before cutoff o.deleted_at) db.orders))
        db.payments;
  orders = filter (λ o. not (deleted_before cutoff o.deleted_at)) db.orders;
}

unfoldable pub repoint_vehicle : ℕ → ℕ → Db → Db
repoint_vehicle source target db = record db {
  orders =
      update_where (λ o. o.vehicle_id == source) (λ o. record o { vehicle_id = target }) db.orders;
}

unfoldable pub repoint_client : ℕ → ℕ → Db → Db
repoint_client source target db = record db {
  orders =
      update_where (λ o. o.client_id == source) (λ o. record o { client_id = target }) db.orders;
}
