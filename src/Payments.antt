-- ===== src/Payments.antt =====
-- src/modules/payments: `create` of payments.service.ts, with the queries of
-- payments.repository.ts. The transaction holds the order's row, so a call runs alone on the
-- payments of its order. The path of a request and the JSON text of its payload are the arguments
-- `payments_path` and `dto_text`, SHA-256 is `digest`.
pub mod Laws
pub mod Replays
mod Tests
use Prim.Native.String.{String}
use wash_flow.Prelude.{
  ℕ, ◌+◌, Bool, true, false, not, Option, none, some, List, [], ◌∷◌, map, ◌&&◌, ltb, ◌==◌, is_none,
  get_or, find?, filter, sum, Result, ok, bad_request, not_found, conflict, throw_if, or_throw,
  ◌>>=◌, ◌>>◌,
}
use wash_flow.Database.{Db, Order, Payment, PaymentStatus, paid, is_active_status}
use wash_flow.Idempotency.{
  RequestIdentity, RequestClaim, fresh, replay, payment_v1, request_identity, claim_request,
  save_request,
}

pub record CreatePaymentDto : Type 0 where
  pub amount : ℕ
  pub method : String
  pub reference : Option String
  pub status : Option PaymentStatus

-- `PaymentReceivedEvent`
pub record PaymentReceived : Type 0 where
  pub tenant_id : ℕ
  pub payment_id : ℕ
  pub order_id : ℕ
  pub amount : ℕ
  pub method : String
  pub performed_by_id : ℕ

-- The row that `withLockedOrder` locks.
unfoldable pub locked_order : Db → ℕ → ℕ → Option Order
locked_order db tenant_id order_id =
    find? (λ o. o.id == order_id && (o.tenant_id == tenant_id && is_none o.deleted_at)) db.orders

-- `findByOrderIdTx`
unfoldable pub find_by_order_id : Db → ℕ → ℕ → List Payment
find_by_order_id db tenant_id order_id =
    filter (λ p. p.tenant_id == tenant_id && p.order_id == order_id) db.payments

-- `findByIdTx`
unfoldable pub find_by_id : Db → ℕ → ℕ → ℕ → Option Payment
find_by_id db tenant_id order_id id =
    find? (λ p. p.id == id && (p.tenant_id == tenant_id && p.order_id == order_id)) db.payments

unfoldable pub total_paid : Db → ℕ → ℕ → ℕ
unfolding find_by_order_id
total_paid db tenant_id order_id =
    sum (map (λ p. p.amount) (find_by_order_id db tenant_id order_id))

abbrev pub is_in_branch : Option ℕ → Order → Bool
is_in_branch none order = true
is_in_branch (some branch_id) order = order.branch_id == branch_id

unfoldable pub payment_of : ℕ → ℕ → ℕ → CreatePaymentDto → Payment
payment_of new_id tenant_id order_id dto = record {
  id = new_id;
  tenant_id = tenant_id;
  order_id = order_id;
  amount = dto.amount;
  method = dto.method;
  status = get_or dto.status paid;
  reference = dto.reference;
}

pub record Received : Type 0 where
  pub payment : Payment
  pub is_replay : Bool

module _ (new_id tenant_id order_id : ℕ) (dto : CreatePaymentDto) where
  -- The checks of the order, and the new row.
  unfoldable pub add_payment : Db → Order → Result (Payment × Db)
  unfolding total_paid payment_of
  add_payment db order = do
    throw_if (not (is_active_status order.status))
        (bad_request "Cannot add payment to an order with this status")
    throw_if
        (ltb 0 order.total_price
          && ltb order.total_price (total_paid db tenant_id order_id + dto.amount))
        (bad_request "Payment would exceed order total")
    let payment = payment_of new_id tenant_id order_id dto
    ok (payment, record db { payments = payment ∷ db.payments })

  add_and_save : RequestIdentity → Db → Order → Result (Received × Db)
  unfolding add_payment
  add_and_save identity db order = do
    (payment, db') ← add_payment db order
    ok (
      record { payment = payment; is_replay = false },
      record db' { idempotency_keys = save_request db'.idempotency_keys identity payment.id },
    )

  claimed_payment : RequestIdentity → RequestClaim → Db → Order → Result (Received × Db)
  unfolding find_by_id add_and_save
  claimed_payment identity (replay id) db order = do
    cached ←
        or_throw (find_by_id db tenant_id order_id id)
          (conflict "Original payment is no longer available")
    ok (record { payment = cached; is_replay = true }, db)
  claimed_payment identity fresh db order = add_and_save identity db order

  pay : Option RequestIdentity → ℕ → Db → Order → Result (Received × Db)
  unfolding claimed_payment
  pay none now db order = do
    (payment, db') ← add_payment db order
    ok (record { payment = payment; is_replay = false }, db')
  pay (some identity) now db order = do
    (claim, keys) ← claim_request db.idempotency_keys identity now
    claimed_payment identity claim (record db { idempotency_keys = keys }) order

  -- The callback of `withLockedOrder`.
  unfoldable pub payment_tx : Option ℕ → Option RequestIdentity → ℕ → Db → Result (Received × Db)
  unfolding locked_order pay
  payment_tx branch_id identity now db = do
    order ← or_throw (locked_order db tenant_id order_id) (not_found "Order not found")
    throw_if (not (is_in_branch branch_id order)) (not_found "Order not found")
    pay identity now db order

-- What a call leaves: the payment it returns, the database and the events dispatched.
pub record PaymentDone : Type 0 where
  pub payment : Payment
  pub db : Db
  pub events : List PaymentReceived

abbrev received_events : ℕ → ℕ → CreatePaymentDto → ℕ → Received → List PaymentReceived
received_events tenant_id order_id dto performed_by_id r = elim r.is_replay [
  | true ↦ []
  | false ↦
      record {
        tenant_id = tenant_id;
        payment_id = r.payment.id;
        order_id = order_id;
        amount = dto.amount;
        method = dto.method;
        performed_by_id = performed_by_id;
      }
      ∷ []
]

module _ (digest : String → String) (payments_path : ℕ → String)
    (dto_text : CreatePaymentDto → String) where
  -- `PaymentsService.create`
  unfoldable pub create_payment :
      (new_id tenant_id order_id : ℕ)
      → CreatePaymentDto
      → ℕ
      → Option String
      → Option ℕ
      → ℕ
      → Db
      → Result PaymentDone
  unfolding request_identity payment_tx
  create_payment new_id tenant_id order_id dto performed_by_id key branch_id now db = do
    identity ←
        request_identity digest tenant_id key "POST" (payments_path order_id) payment_v1
          (some performed_by_id) (dto_text dto)
    (r, db') ← payment_tx new_id tenant_id order_id dto branch_id identity now db
    ok (record {
      payment = r.payment;
      db = db';
      events = received_events tenant_id order_id dto performed_by_id r;
    })

  -- `PaymentsService.findByOrderId`, whose client leaves deleted orders out.
  unfoldable pub find_payments : ℕ → ℕ → Option ℕ → Db → Result (List Payment)
  find_payments tenant_id order_id branch_id db = do
    order ← or_throw (locked_order db tenant_id order_id) (not_found "Order not found")
    throw_if (not (is_in_branch branch_id order)) (not_found "Order not found")
    ok (find_by_order_id db tenant_id order_id)
