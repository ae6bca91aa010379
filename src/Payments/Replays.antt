-- ===== src/Payments/Replays.antt =====
-- What the payments service answers when a request is repeated.
use Prim.Native.String.{String}
use wash_flow.Prelude.{
  ℕ, ◌+◌, ◌<◌, ◌≡◌, ◌≢◌, ap, ◌∙◌, inl, inr, true, false, Option, none, some, List, [], ◌∷◌, arith,
  ok, Result-cases, Option-cases,
}
use wash_flow.Database.{Db, IdempotencyKey, Order, Payment}
use wash_flow.Idempotency.{
  RequestIdentity, fresh, replay, Kind, payment_v1, request_identity, claim_request, save_request,
  ttl_ms, find_by_key,
}
use wash_flow.Idempotency.Laws.{claim_request-find_by_key}
use wash_flow.Payments.{
  CreatePaymentDto, locked_order, find_by_id, payment_of, Received, add_payment, add_and_save,
  claimed_payment, pay, payment_tx, PaymentDone, create_payment, is_in_branch,
}
use wash_flow.Payments.Laws.{add_payment-ok}

module _ (new_id tenant_id order_id : ℕ) (dto : CreatePaymentDto) where
  -- A new payment stands first in its table, and its request is saved.
  add_and_save-ok :
      (identity : RequestIdentity) (db db' : Db) (order : Order) (r : Received)
      → add_and_save new_id tenant_id order_id dto identity db order ≡ ok (r, db')
      → (db'.idempotency_keys ≡ save_request db.idempotency_keys identity r.payment.id)
        × (db'.payments ≡ r.payment ∷ db.payments)
        × (r.payment ≡ payment_of new_id tenant_id order_id dto)
  unfolding add_and_save
  add_and_save-ok identity db db' order r h =
      elim (Result-cases (add_payment new_id tenant_id order_id dto db order)) [
        | inl ((p, db1), added) ↦
            let (row, left, _, _) =
              add_payment-ok new_id tenant_id order_id dto db db1 order p added in
            (ground arith, ground arith, ground arith)
        | inr (e, refused) ↦ absurd (ground arith)
      ]

  find_by_id-head :
      (db : Db) (ps : List Payment) (p : Payment)
      → db.payments ≡ p ∷ ps
      → p ≡ payment_of new_id tenant_id order_id dto
      → find_by_id db tenant_id order_id p.id ≡ some p
  unfolding find_by_id payment_of
  find_by_id-head db ps p h row = ground arith

  -- A claim that led to a new payment was fresh, and saved the payment under its key.
  pay-saves :
      (identity : RequestIdentity) (now : ℕ) (db db' : Db) (order : Order) (r : Received)
      → pay new_id tenant_id order_id dto (some identity) now db order ≡ ok (r, db')
      → r.is_replay ≡ false
      → (keys : List IdempotencyKey) × (claim_request db.idempotency_keys identity now
          ≡ ok (fresh, keys))
        × (db'.idempotency_keys ≡ save_request keys identity r.payment.id)
        × (find_by_id db' tenant_id order_id r.payment.id ≡ some r.payment)
  unfolding pay claimed_payment
  pay-saves identity now db db' order r h new =
      elim (Result-cases (claim_request db.idempotency_keys identity now)) [
        | inl ((fresh, keys), granted) ↦
            let dbk = record db { idempotency_keys = keys } in
            let (saved, table, row) = add_and_save-ok identity dbk db' order r (ground arith) in
            (keys, granted, saved, find_by_id-head db' db.payments r.payment table row)
        | inl ((replay id, keys), granted) ↦ absurd (ground arith)
        | inr (e, refused) ↦ absurd (ground arith)
      ]

  pay-replays :
      (identity : RequestIdentity) (now later : ℕ) (db db' db2 : Db) (order order2 : Order)
      (r : Received) (other_id : ℕ)
      → pay new_id tenant_id order_id dto (some identity) now db order ≡ ok (r, db')
      → r.is_replay ≡ false
      → later < now + ttl_ms
      → find_by_key identity.tenant_id identity.key db2.idempotency_keys
        ≡ find_by_key identity.tenant_id identity.key db'.idempotency_keys
      → find_by_id db2 tenant_id order_id r.payment.id
        ≡ find_by_id db' tenant_id order_id r.payment.id
      → pay other_id tenant_id order_id dto (some identity) later db2 order2
        ≡ ok (record { payment = r.payment; is_replay = true }, db2)
  unfolding pay claimed_payment
  pay-replays identity now later db db' db2 order order2 r other_id h new live same_keys same_rows =
      let (keys, granted, saved, found) = pay-saves identity now db db' order r h new in
      let answered =
        claim_request-find_by_key db.idempotency_keys keys db2.idempotency_keys identity now later
          r.payment.id granted
          (same_keys ∙ ap (λ rows. find_by_key identity.tenant_id identity.key rows) saved) live in
      ground arith

keyed_identity :
    (digest : String → String) (tenant_id : ℕ) (key method path : String) (kind : Kind)
    (actor_id : Option ℕ) (payload : String)
    → request_identity digest tenant_id (some key) method path kind actor_id payload ≢ ok none
unfolding request_identity
keyed_identity digest tenant_id key method path kind actor_id payload h = ground arith

identity_key :
    (digest : String → String) (tenant_id : ℕ) (key method path : String) (kind : Kind)
    (actor_id : Option ℕ) (payload : String) (identity : RequestIdentity)
    → request_identity digest tenant_id (some key) method path kind actor_id payload
      ≡ ok (some identity)
    → (identity.tenant_id ≡ tenant_id) × (identity.key ≡ key)
unfolding request_identity
identity_key digest tenant_id key method path kind actor_id payload identity h =
    (ground arith, ground arith)

-- A payment that was made under a request key is made once. Before the key expires, the same request
-- gets the same payment, changes nothing and sends no event, if by then the row of the key and the
-- payment are as the first call left them and the order is there, in the caller's branch; the order
-- itself, and all other rows, may have changed.
pub create_payment-replays :
    (digest : String → String) (payments_path : ℕ → String) (dto_text : CreatePaymentDto → String)
    (new_id other_id tenant_id order_id : ℕ) (dto : CreatePaymentDto) (performed_by_id : ℕ)
    (key : String) (branch_id : Option ℕ) (now later : ℕ) (db db2 : Db) (done : PaymentDone)
    (order : Order)
    → create_payment digest payments_path dto_text new_id tenant_id order_id dto performed_by_id
        (some key)
        branch_id
        now
        db
      ≡ ok done
    → done.events ≢ []
    → later < now + ttl_ms
    → find_by_key tenant_id key db2.idempotency_keys
      ≡ find_by_key tenant_id key done.db.idempotency_keys
    → find_by_id db2 tenant_id order_id done.payment.id
      ≡ find_by_id done.db tenant_id order_id done.payment.id
    → locked_order db2 tenant_id order_id ≡ some order
    → is_in_branch branch_id order ≡ true
    → create_payment digest payments_path dto_text other_id tenant_id order_id dto performed_by_id
        (some key)
        branch_id
        later
        db2
      ≡ ok (record { payment = done.payment; db = db2; events = [] })
unfolding create_payment payment_tx
create_payment-replays digest payments_path dto_text new_id other_id tenant_id order_id dto actor
      key branch_id now later db db2 done order h sent live same_keys same_rows found scope =
    elim (Result-cases (
      request_identity digest tenant_id (some key) "POST" (payments_path order_id) payment_v1
        (some actor) (dto_text dto))) [
          | inl (none, e) ↦ absurd (keyed_identity digest tenant_id key _ _ _ _ _ e)
          | inl (some identity, e) ↦ elim (Option-cases (locked_order db tenant_id order_id)) [
            | inl gone ↦ absurd (ground arith)
            | inr (order1, found1) ↦
                elim (Result-cases
                  (pay new_id tenant_id order_id dto (some identity) now db order1)) [
                    | inl ((r, db'), ran) ↦
                        let new : r.is_replay ≡ false = ground arith in
                        let left : db' ≡ done.db = ground arith in
                        let made : r.payment ≡ done.payment = ground arith in
                        let (tenant_of, key_of) =
                          identity_key digest tenant_id key "POST" (payments_path order_id)
                            payment_v1 (some actor) (dto_text dto) identity e in
                        let again =
                          pay-replays new_id tenant_id order_id dto identity now later db db' db2
                            order1 order r other_id ran new live
                            (rw (tenant_of, key_of, left) same_keys) (rw (made, left) same_rows) in
                        ground arith
                    | inr (f, refused) ↦ absurd (ground arith)
                  ]
          ]
          | inr (f, refused) ↦ absurd (ground arith)
        ]
