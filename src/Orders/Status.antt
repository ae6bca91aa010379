-- ===== src/Orders/Status.antt =====
-- VALID_STATUS_TRANSITIONS of src/modules/orders/types/order.types.ts.
pub mod Laws
use wash_flow.Prelude.{Bool, true, false, List, [], ◌∷◌, ◌||◌}
use wash_flow.Database.{
  OrderStatus, booked, booked_pending_confirmation, in_progress, completed, cancelled, no_show,
}

abbrev pub status_eq : OrderStatus → OrderStatus → Bool
status_eq booked booked = true
status_eq booked_pending_confirmation booked_pending_confirmation = true
status_eq in_progress in_progress = true
status_eq completed completed = true
status_eq cancelled cancelled = true
status_eq no_show no_show = true
status_eq _ _ = false

abbrev pub includes : List OrderStatus → OrderStatus → Bool
includes [] s = false
includes (x ∷ xs) s = status_eq x s || includes xs s

unfoldable pub valid_status_transitions : OrderStatus → List OrderStatus
valid_status_transitions booked_pending_confirmation = booked ∷ cancelled ∷ no_show ∷ []
valid_status_transitions booked = in_progress ∷ cancelled ∷ no_show ∷ []
valid_status_transitions in_progress = completed ∷ cancelled ∷ []
valid_status_transitions completed = []
valid_status_transitions cancelled = []
valid_status_transitions no_show = []
