-- ===== src/Payments/Laws.antt =====
-- What the payments service accepts, and what that does to an order's payments.
use Prim.Native.String.{String}
use wash_flow.Prelude.{
  ℕ, ◌+◌, ◌≤◌, ◌↔◌, ◌<◌, ◌≡◌, refl, subst, sym, inl, inr, true, false, Option, none, some, List,
  ◌∷◌, arith, ok, Result-cases, Option-cases, Bool-cases, ◌&&◌, ◌==◌,
}
use wash_flow.Database.{Db, IdempotencyKey, Order, Payment, is_active_status}
use wash_flow.Idempotency.{
  RequestIdentity, RequestClaim, fresh, replay, payment_v1, request_identity, claim_request,
  save_request,
}
use wash_flow.Payments.{
  CreatePaymentDto, locked_order, find_by_order_id, total_paid, payment_of, Received, add_payment,
  add_and_save, claimed_payment, pay, payment_tx, PaymentDone, create_payment, is_in_branch,
}

-- No order is paid more than its price, unless it has none.
abbrev pub IsWithinPrice : Db → Type 0
IsWithinPrice db =
    (tenant_id order_id : ℕ) (o : Order)
    → locked_order db tenant_id order_id ≡ some o
    → 0 < o.total_price
    → total_paid db tenant_id order_id ≤ o.total_price

-- Only a row of the same order counts towards what it is paid.
total_paid-add :
    (db : Db) (p : Payment) (tenant_id order_id : ℕ)
    → let db' = record db { payments = p ∷ db.payments } in
      total_paid db' tenant_id order_id ≤ total_paid db tenant_id order_id + p.amount
      × ((p.tenant_id == tenant_id && p.order_id == order_id) ≡ false
          → total_paid db' tenant_id order_id ≡ total_paid db tenant_id order_id)
unfolding total_paid find_by_order_id
total_paid-add db p tenant_id order_id = (ground arith, λ e. ground arith)

module _ (new_id tenant_id order_id : ℕ) (dto : CreatePaymentDto) where
  abbrev added : Db → Db
  added db = record db { payments = payment_of new_id tenant_id order_id dto ∷ db.payments }

  -- What a payment that was added has passed, and what it leaves.
  pub add_payment-ok :
      (db db' : Db) (order : Order) (p : Payment)
      → add_payment new_id tenant_id order_id dto db order ≡ ok (p, db')
      → (p ≡ payment_of new_id tenant_id order_id dto)
        × (db' ≡ added db)
        × (is_active_status order.status ≡ true)
        × (0 < order.total_price
            → total_paid db tenant_id order_id + dto.amount ≤ order.total_price)
  unfolding add_payment
  add_payment-ok db db' order p h = (ground arith, ground arith, ground arith, ground arith)

  added-IsWithinPrice :
      (db : Db) (order : Order)
      → locked_order db tenant_id order_id ≡ some order
      → (0 < order.total_price → total_paid db tenant_id order_id + dto.amount ≤ order.total_price)
      → IsWithinPrice db
      → IsWithinPrice (added db)
  unfolding locked_order payment_of
  added-IsWithinPrice db order found room within t i o e pos =
      let q = payment_of new_id tenant_id order_id dto in
      let (most, same) = total_paid-add db q t i in
      let old : total_paid db t i ≤ o.total_price = within t i o e pos in
      elim (Bool-cases (tenant_id == t && order_id == i)) [
        | inl mine ↦
            let t_same : t ≡ tenant_id = ground arith in
            let i_same : i ≡ order_id = ground arith in
            let o_same : some o ≡ some order = rw (sym found, sym e, t_same, i_same) refl in
            let price : o.total_price ≡ order.total_price = ground (arith, o_same) in
            let before : total_paid db t i ≡ total_paid db tenant_id order_id =
              rw (t_same, i_same) refl in
            grind (arith, most, price, before, room)
        | inr other ↦ grind (arith, same other, old)
      ]

  -- The table of keys has no part in it.
  with_keys-IsWithinPrice :
      (db : Db) (keys : List IdempotencyKey)
      → IsWithinPrice db
      → IsWithinPrice (record db { idempotency_keys = keys })
  unfolding locked_order total_paid find_by_order_id
  with_keys-IsWithinPrice db keys within = within

  add_payment-IsWithinPrice :
      (db db' : Db) (order : Order) (p : Payment)
      → locked_order db tenant_id order_id ≡ some order
      → add_payment new_id tenant_id order_id dto db order ≡ ok (p, db')
      → IsWithinPrice db
      → IsWithinPrice db'
  add_payment-IsWithinPrice db db' order p found h within =
      let (_, same, _, room) = add_payment-ok db db' order p h in
      subst IsWithinPrice (sym same) (added-IsWithinPrice db order found room within)

  add_and_save-IsWithinPrice :
      (identity : RequestIdentity) (db db' : Db) (order : Order) (r : Received)
      → locked_order db tenant_id order_id ≡ some order
      → add_and_save new_id tenant_id order_id dto identity db order ≡ ok (r, db')
      → IsWithinPrice db
      → IsWithinPrice db'
  unfolding add_and_save
  add_and_save-IsWithinPrice identity db db' order r found h within =
      elim (Result-cases (add_payment new_id tenant_id order_id dto db order)) [
        | inl ((p, db1), added) ↦
            let keys = save_request db1.idempotency_keys identity p.id in
            let left : record db1 { idempotency_keys = keys } ≡ db' = ground arith in
            subst IsWithinPrice left (
              with_keys-IsWithinPrice db1 keys
                (add_payment-IsWithinPrice db db1 order p found added within))
        | inr (e, refused) ↦ absurd (ground arith)
      ]

  claimed_payment-IsWithinPrice :
      (identity : RequestIdentity) (claim : RequestClaim) (db db' : Db) (order : Order)
      (r : Received)
      → locked_order db tenant_id order_id ≡ some order
      → claimed_payment new_id tenant_id order_id dto identity claim db order ≡ ok (r, db')
      → IsWithinPrice db
      → IsWithinPrice db'
  unfolding claimed_payment
  claimed_payment-IsWithinPrice identity fresh db db' order r found h within =
      add_and_save-IsWithinPrice identity db db' order r found h within
  claimed_payment-IsWithinPrice identity (replay id) db db' order r found h within =
      let same : db ≡ db' = ground arith in subst IsWithinPrice same within

  pay-IsWithinPrice :
      (identity : Option RequestIdentity) (now : ℕ) (db db' : Db) (order : Order) (r : Received)
      → locked_order db tenant_id order_id ≡ some order
      → pay new_id tenant_id order_id dto identity now db order ≡ ok (r, db')
      → IsWithinPrice db
      → IsWithinPrice db'
  unfolding pay locked_order
  pay-IsWithinPrice none now db db' order r found h within =
      elim (Result-cases (add_payment new_id tenant_id order_id dto db order)) [
        | inl ((p, db1), added) ↦
            let left : db1 ≡ db' = ground arith in
            subst IsWithinPrice left (add_payment-IsWithinPrice db db1 order p found added within)
        | inr (e, refused) ↦ absurd (ground arith)
      ]
  pay-IsWithinPrice (some identity) now db db' order r found h within =
      elim (Result-cases (claim_request db.idempotency_keys identity now)) [
        | inl ((claim, keys), granted) ↦
            claimed_payment-IsWithinPrice identity claim (record db { idempotency_keys = keys }) db'
              order r found (ground arith) (with_keys-IsWithinPrice db keys within)
        | inr (e, refused) ↦ absurd (ground arith)
      ]

  payment_tx-IsWithinPrice :
      (branch_id : Option ℕ) (identity : Option RequestIdentity) (now : ℕ) (db db' : Db)
      (r : Received)
      → payment_tx new_id tenant_id order_id dto branch_id identity now db ≡ ok (r, db')
      → IsWithinPrice db
      → IsWithinPrice db'
  unfolding payment_tx
  payment_tx-IsWithinPrice branch_id identity now db db' r h within =
      elim (Option-cases (locked_order db tenant_id order_id)) [
        | inl gone ↦ absurd (ground arith)
        | inr (order, found) ↦
            pay-IsWithinPrice identity now db db' order r found (ground arith) within
      ]

-- A payment that is accepted keeps every order within its price: the rows of an order never add up
-- to more than its total price, if it has one. It stays so whatever the request key does.
pub create_payment-IsWithinPrice :
    (digest : String → String) (payments_path : ℕ → String) (dto_text : CreatePaymentDto → String)
    (new_id tenant_id order_id : ℕ) (dto : CreatePaymentDto) (performed_by_id : ℕ)
    (key : Option String) (branch_id : Option ℕ) (now : ℕ) (db : Db) (done : PaymentDone)
    → create_payment digest payments_path dto_text new_id tenant_id order_id dto performed_by_id key
        branch_id now db
      ≡ ok done
    → IsWithinPrice db
    → IsWithinPrice done.db
unfolding create_payment
create_payment-IsWithinPrice digest payments_path dto_text new_id tenant_id order_id dto actor key
      branch_id now db done h within =
    elim (Result-cases (
      request_identity digest tenant_id key "POST" (payments_path order_id) payment_v1 (some actor)
        (dto_text dto))) [
          | inl (identity, e) ↦
              elim (Result-cases
                (payment_tx new_id tenant_id order_id dto branch_id identity now db)) [
                  | inl ((r, db'), ran) ↦
                      let left : db' ≡ done.db = ground arith in
                      subst IsWithinPrice left (
                        payment_tx-IsWithinPrice new_id tenant_id order_id dto branch_id identity
                          now db db' r ran within)
                  | inr (f, refused) ↦ absurd (ground arith)
                ]
          | inr (f, refused) ↦ absurd (ground arith)
        ]

-- With no request key, a payment of an order in scope is accepted exactly when the order is neither
-- cancelled, completed nor missed and its price, if it has one, still covers the amount.
pub payment_tx_accepts_iff :
    (new_id tenant_id order_id : ℕ) (dto : CreatePaymentDto) (branch_id : Option ℕ) (now : ℕ)
    (db : Db) (order : Order)
    → locked_order db tenant_id order_id ≡ some order
    → is_in_branch branch_id order ≡ true
    → ((r : Received × Db) × (payment_tx new_id tenant_id order_id dto branch_id none now db
          ≡ ok r))
      ↔ ((is_active_status order.status ≡ true)
          × (0 < order.total_price
              → total_paid db tenant_id order_id + dto.amount ≤ order.total_price))
unfolding payment_tx pay add_payment
payment_tx_accepts_iff new_id tenant_id order_id dto branch_id now db order found scope = (
  λ (r, h). (ground arith, ground arith),
  λ (active, room). (
    (
      record { payment = payment_of new_id tenant_id order_id dto; is_replay = false },
      added new_id tenant_id order_id dto db,
    ),
    ground arith,
  ),
)
