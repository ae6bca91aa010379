-- ===== src/Orders/Events.antt =====
-- The domain events that orders.service.ts dispatches, in src/modules/orders/events and
-- src/common/events/order-rescheduled.event.ts; and how they follow a transaction.
pub mod Laws
use Prim.Native.String.{String}
use wash_flow.Prelude.{ℕ, Option, none, some, List, []}
use wash_flow.Database.{Db, Order, OrderStatus}
use wash_flow.Orders.Transaction.{Outcome, returned, threw}

pub data Event : Type 0 where
  order_created : Order → Event
  order_status_changed :
      (order_id branch_id : ℕ) → (previous_status new_status : OrderStatus) → (user_id : ℕ) → Event
  order_cancelled : (order_id branch_id : ℕ) → Option String → (user_id : ℕ) → Event
  order_rescheduled : (user_id : ℕ) → (previous updated : Order) → Event

-- What a call of the service did: its outcome, the database it left, and the events dispatched.
pub record Done {ℓ} (A : Type ℓ) : Type ℓ where
  pub outcome : Outcome A
  pub db : Db
  pub events : List Event

module _ {ℓ κ} {A : Type ℓ} {B : Type κ} where
  abbrev after : (A → B) → (A → List Event) → Outcome A × Db → Done B
  after result events (returned a, db) = record {
    outcome = returned (result a);
    db = db;
    events = events a;
  }
  after result events (threw e, db) = record { outcome = threw e; db = db; events = [] }

  -- Events are dispatched only after a transaction that returned.
  unfoldable pub dispatch_after :
      (A → B) → (A → List Event) → Option (Outcome A × Db) → Option (Done B)
  dispatch_after result events none = none
  dispatch_after result events (some r) = some (after result events r)
