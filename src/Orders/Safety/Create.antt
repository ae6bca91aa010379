-- ===== src/Orders/Safety/Create.antt =====
-- Creating an order, and double bookings.
use wash_flow.Prelude.{
  ℕ, ◌≡◌, refl, subst, ◌≢◌, inl, inr, Option, none, some, List, [], ◌∷◌, arith, All, ok,
  Result-cases,
}
use wash_flow.Database.{Db, Order}
use wash_flow.Common.Zones.{Zones}
use wash_flow.Common.BookingSettings.{resolve_booking_settings}
use wash_flow.Occupancy.{work_post, employee}
use wash_flow.Occupancy.Apart.{Free}
use wash_flow.Occupancy.Updates.{Apart-insert}
use wash_flow.Idempotency.{RequestIdentity, RequestClaim, fresh, replay, claim_request}
use wash_flow.Orders.Employees.{Reservation}
use wash_flow.Orders.Resources.{or_undefined, reserve_resources}
use wash_flow.Orders.Resources.Laws.{slot, AllFree, reserve_resources-AllFree}
use wash_flow.Orders.Create.{
  CreateOrderDto, Plan, Created, reservation_of, plan_order, order_of, insert_order, claimed,
  create_tx,
}
use wash_flow.Orders.Safety.{IsSafe}

-- No order has the identifier of the row to insert.
abbrev pub IsFresh : ℕ → List Order → Type 0
IsFresh new_id os = All (λ q. q.id ≢ new_id) os

-- A planned order has reserved its resources for its own interval.
pub plan_order-reserves :
    (z : Zones) (db : Db) (tenant_id : ℕ) (dto : CreateOrderDto) (now : ℕ) (plan : Plan)
    → plan_order z db tenant_id dto now ≡ ok plan
    → (buffer : ℕ) × (reserve_resources z db
          (reservation_of tenant_id dto plan.scheduled_end buffer)
          (or_undefined dto.work_post_id)
          (or_undefined dto.assigned_employee_id)
        ≡ ok plan.resources)
unfolding plan_order
plan_order-reserves z db tenant_id dto now plan h = (
  (resolve_booking_settings db.booking_settings tenant_id (some dto.branch_id)).buffer_time_minutes,
  ground arith,
)

-- With no order left out, the reservation's slot is free of all of them.
Free-of_AllFree :
    (key : Order → Option ℕ) (params : Reservation) (r : Option ℕ) (os : List Order)
    → params.exclude_order_id ≡ none
    → AllFree key params r os
    → All (Free key (slot params r)) os
Free-of_AllFree key params r [] e f = tt
Free-of_AllFree key params r (q ∷ os) e f =
    (f.0 (ground arith), Free-of_AllFree key params r os e f.1)

module _ (z : Zones) (new_id tenant_id : ℕ) (dto : CreateOrderDto)
    (user_id user_branch_id : Option ℕ) (now : ℕ) where
  order_of-IsSafe :
      (plan : Plan) (db : Db)
      → IsSafe db.orders
      → IsFresh new_id db.orders
      → plan_order z db tenant_id dto now ≡ ok plan
      → IsSafe (order_of new_id tenant_id dto user_id plan ∷ db.orders)
  unfolding order_of reservation_of
  order_of-IsSafe plan db s fresh_id planned =
      let (buffer, reserved) = plan_order-reserves z db tenant_id dto now plan planned in
      let params = reservation_of tenant_id dto plan.scheduled_end buffer in
      let (posts, employees) =
        reserve_resources-AllFree z db params (or_undefined dto.work_post_id)
          (or_undefined dto.assigned_employee_id) plan.resources reserved in
      record {
        posts =
            Apart-insert work_post (slot params plan.resources.work_post_id)
              (order_of new_id tenant_id dto user_id plan) db.orders fresh_id
              (record { tenant = refl; resource = refl; start = refl; end = refl })
              (Free-of_AllFree work_post params plan.resources.work_post_id db.orders refl posts)
              s.posts;
        employees =
            Apart-insert employee (slot params plan.resources.assigned_employee_id)
              (order_of new_id tenant_id dto user_id plan) db.orders fresh_id
              (record { tenant = refl; resource = refl; start = refl; end = refl })
              (Free-of_AllFree employee params plan.resources.assigned_employee_id db.orders refl
                employees)
              s.employees;
      }

  insert_order-IsSafe :
      (db db' : Db) (o : Order)
      → IsSafe db.orders
      → IsFresh new_id db.orders
      → insert_order z new_id tenant_id dto user_id user_branch_id now db ≡ ok (o, db')
      → IsSafe db'.orders
  unfolding insert_order
  insert_order-IsSafe db db' o s fresh_id h =
      elim (Result-cases (plan_order z db tenant_id dto now)) [
        | inl (plan, planned) ↦
            subst IsSafe (ground arith) (order_of-IsSafe plan db s fresh_id planned)
        | inr (e, refused) ↦ absurd (ground arith)
      ]

  claimed-IsSafe :
      (identity : RequestIdentity) (claim : RequestClaim) (db db' : Db) (c : Created)
      → IsSafe db.orders
      → IsFresh new_id db.orders
      → claimed z new_id tenant_id dto user_id user_branch_id now identity claim db ≡ ok (c, db')
      → IsSafe db'.orders
  unfolding create_tx
  claimed-IsSafe identity (replay id) db db' c s fresh_id h = subst IsSafe (ground arith) s
  claimed-IsSafe identity fresh db db' c s fresh_id h =
      elim (Result-cases (insert_order z new_id tenant_id dto user_id user_branch_id now db)) [
        | inl ((o, db1), inserted) ↦
            subst IsSafe (ground arith) (insert_order-IsSafe db db1 o s fresh_id inserted)
        | inr (e, refused) ↦ absurd (ground arith)
      ]

  -- The transaction of `create` keeps the orders free of double bookings, with or without a request
  -- key, if the identifier of its new row is fresh.
  pub create_tx-IsSafe :
      (identity : Option RequestIdentity) (db db' : Db) (c : Created)
      → IsSafe db.orders
      → IsFresh new_id db.orders
      → create_tx z new_id tenant_id dto user_id user_branch_id now identity db ≡ ok (c, db')
      → IsSafe db'.orders
  unfolding create_tx
  create_tx-IsSafe none db db' c s fresh_id h =
      elim (Result-cases (insert_order z new_id tenant_id dto user_id user_branch_id now db)) [
        | inl ((o, db1), inserted) ↦
            subst IsSafe (ground arith) (insert_order-IsSafe db db1 o s fresh_id inserted)
        | inr (e, refused) ↦ absurd (ground arith)
      ]
  create_tx-IsSafe (some identity) db db' c s fresh_id h =
      elim (Result-cases (claim_request db.idempotency_keys identity now)) [
        | inl ((claim, keys), granted) ↦
            claimed-IsSafe identity claim (record db { idempotency_keys = keys }) db' c s fresh_id
              (ground arith)
        | inr (e, refused) ↦ absurd (ground arith)
      ]
