-- ===== src/Payments/Tests.antt =====
-- The laws of payments, for an order of 25.00.
use wash_flow.Idempotency.{claim_request, save_request}
use Prim.Native.String.{String}
use wash_flow.Prelude.{ℕ, ◌+◌, ◌≤◌, ◌<◌, ◌≡◌, ◌↔◌, refl, true, none, some, [], ◌∷◌, ok, arith}
use wash_flow.Database.{Db, Payment, paid, is_active_status}
use wash_flow.Orders.Fixture.{first_order, booked_wash}
use wash_flow.Payments.{
  CreatePaymentDto, Received, PaymentDone, locked_order, total_paid, payment_tx, create_payment,
  find_by_order_id,
}
use wash_flow.Payments.Laws.{IsWithinPrice, create_payment-IsWithinPrice, payment_tx_accepts_iff}
use wash_flow.Payments.Replays.{create_payment-replays}

abbrev deposit : CreatePaymentDto
deposit = record { amount = 1000; method = "CARD"; reference = none; status = none }

abbrev no_digest : String → String
no_digest s = s

abbrev path : ℕ → String
path id = "/orders/1/payments"

abbrev no_text : CreatePaymentDto → String
no_text dto = "{}"

abbrev deposited : Payment
deposited = record {
  id = 71;
  tenant_id = 1;
  order_id = 1;
  amount = 1000;
  method = "CARD";
  status = paid;
  reference = none;
}

abbrev paid_wash : Db
paid_wash = record booked_wash {
  payments = deposited ∷ [];
  idempotency_keys =
      record {
        key = "p-1";
        tenant_id = 1;
        method = "POST";
        path = "/orders/1/payments";
        status_code = 201;
        response_body = wash_flow.Database.envelope "payment-v1" (some 9) "{}" (some 71);
        expires_at = 86401000;
      }
      ∷ [];
}

abbrev first_payment : PaymentDone
first_payment = record {
  payment = deposited;
  db = paid_wash;
  events =
      record {
        tenant_id = 1;
        payment_id = 71;
        order_id = 1;
        amount = 1000;
        method = "CARD";
        performed_by_id = 9;
      }
      ∷ [];
}

pays :
    create_payment no_digest path no_text 71 1 1 deposit 9 (some "p-1") none 1000 booked_wash
    ≡ ok first_payment
unfolding create_payment claim_request save_request
pays = refl

nothing_paid : IsWithinPrice booked_wash
unfolding total_paid find_by_order_id
nothing_paid tenant_id order_id o found pos = omega arith

create_payment-IsWithinPrice_example : IsWithinPrice paid_wash
create_payment-IsWithinPrice_example =
    create_payment-IsWithinPrice no_digest path no_text 71 1 1 deposit 9 (some "p-1") none 1000
      booked_wash first_payment pays nothing_paid

found_first : locked_order paid_wash 1 1 ≡ some first_order
unfolding locked_order
found_first = refl

payment_tx_accepts_iff_example :
    ((r : Received × Db) × (payment_tx 72 1 1 deposit none none 2000 paid_wash ≡ ok r)) ↔ (
      (is_active_status first_order.status ≡ true)
      × (0 < first_order.total_price
          → total_paid paid_wash 1 1 + deposit.amount ≤ first_order.total_price))
payment_tx_accepts_iff_example =
    payment_tx_accepts_iff 72 1 1 deposit none 2000 paid_wash first_order found_first refl

create_payment-replays_example :
    create_payment no_digest path no_text 72 1 1 deposit 9 (some "p-1") none 5000 paid_wash
    ≡ ok (record { payment = deposited; db = paid_wash; events = [] })
create_payment-replays_example =
    create_payment-replays no_digest path no_text 71 72 1 1 deposit 9 "p-1" none 1000 5000
      booked_wash paid_wash first_payment first_order pays (λ e. ground arith) (omega arith) refl
      refl found_first refl
