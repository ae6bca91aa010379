-- ===== src/PublicBooking/Outcomes.antt =====
-- How a public booking ends, and what it has changed by then.
use Prim.Native.String.{String}
use wash_flow.Prelude.{
  ℕ, ◌≡◌, ◌⊎◌, refl, sym, ap, subst, ◌∙◌, Option, none, some, [], arith, Result, ok, err,
  Option-cases, Result-cases, inl, inr,
}
use wash_flow.Database.{Db, Order}
use wash_flow.Common.Zones.{Zones}
use wash_flow.Idempotency.{request_identity, order_v1}
use wash_flow.Orders.Transaction.{DbError, Outcome, returned, threw, Thrown}
use wash_flow.Orders.Events.{Done}
use wash_flow.Orders.Events.Laws.{dispatch_after-IsDone}
use wash_flow.Orders.Create.{
  CreateOrderDto, create, create_tx, request_path, payload_text, created_events,
}
use wash_flow.Orders.Safety.{IsSafe}
use wash_flow.Orders.Safety.Create.{IsFresh}
use wash_flow.Orders.Safety.Service.{Reach-IsSafe}
use wash_flow.PublicBooking.{CreateBookingDto, BookingConfirmation, match_client, order_dto}
use wash_flow.PublicBooking.Booking.{
  NewIds, check_booking, after_create, place_order, create_booking_internal,
}
use wash_flow.PublicBooking.Laws.{place_order-Reach, match_client_orders}

module _ (z : Zones) (digest : String → String) (dto_text : CreateOrderDto → String)
    (booking_text : CreateBookingDto → String) (engine : ℕ → Option DbError) where
  -- A call of `create` that throws in its transaction has changed nothing.
  create_threw :
      (new_id tenant_id : ℕ) (dto : CreateOrderDto) (user_id : Option ℕ) (key : Option String)
      (user_branch_id : Option ℕ) (anonymous : Option String) (now : ℕ) (db : Db)
      (made : Done Order) (t : Thrown)
      → create z digest dto_text engine new_id tenant_id dto user_id key user_branch_id anonymous
          now db
        ≡ ok (some made)
      → made.outcome ≡ threw t
      → (made.db ≡ db) × (made.events ≡ [])
  unfolding create
  create_threw new_id tenant_id dto user_id key user_branch_id anonymous now db made t h failed =
      let identity_of =
        request_identity digest tenant_id key "POST" (request_path anonymous) order_v1 user_id
          (payload_text dto_text anonymous dto) in
      elim (Result-cases identity_of) [
        | inr (e, refusal) ↦ absurd (ground arith)
        | inl (identity, known) ↦
            let (unchanged, _) =
              dispatch_after-IsDone engine
                (create_tx z new_id tenant_id dto user_id user_branch_id now identity)
                (λ c. c.order) created_events db made (ground arith) in
            unchanged t failed
      ]

  after_create_threw :
      (dto : CreateBookingDto) (db1 : Db) (r : Result (Option (Done Order)))
      (done : Done BookingConfirmation) (t : Thrown)
      → ((made : Done Order) (u : Thrown)
          → r ≡ ok (some made)
          → made.outcome ≡ threw u
          → (made.db ≡ db1) × (made.events ≡ []))
      → after_create dto db1 r ≡ some done
      → done.outcome ≡ threw t
      → (done.db ≡ db1) × (done.events ≡ [])
  after_create_threw dto db1 (err e) done t kept h failed = (ground arith, ground arith)
  after_create_threw dto db1 (ok none) done t kept h failed = cc
  after_create_threw dto db1 (ok (some made)) done t kept h failed = of_outcome made.outcome refl
    where
      of_outcome : (o : Outcome Order) → made.outcome ≡ o → (done.db ≡ db1) × (done.events ≡ [])
      of_outcome (returned order) e = absurd (ground arith)
      of_outcome (threw u) e =
          let (same, silent) = kept made u refl e in (ground arith, ground arith)

  module _ (ids : NewIds) (tenant_id : ℕ) (dto : CreateBookingDto) (key : Option String) (now : ℕ)
      (db : Db) (done : Done BookingConfirmation) where
    place_order_threw :
        (t : Thrown)
        → place_order z digest dto_text booking_text engine ids tenant_id dto key now db ≡ some done
        → done.outcome ≡ threw t
        → (done.db ≡ (match_client ids.client ids.vehicle tenant_id dto db).1) × (done.events ≡ [])
    unfolding place_order
    place_order_threw t h failed =
        let (matched, db1) = match_client ids.client ids.vehicle tenant_id dto db in
        let (same, silent) =
          after_create_threw dto db1
            (create z digest dto_text engine ids.order tenant_id (order_dto dto matched) none key
              none (some (booking_text dto)) now db1)
            done t
            (λ made u created failed_there.
              create_threw ids.order tenant_id (order_dto dto matched) none key none
                (some (booking_text dto)) now db1 made u created failed_there)
            h failed in
        (same, silent)

    abbrev Books : Option DbError → Type 0
    Books matching =
        create_booking_internal z digest dto_text booking_text engine matching ids tenant_id dto key
          now db
        ≡ some done

    -- A booking ends before it places an order, with the rows as they were and no event, or as the
    -- placing of the order does.
    ends :
        (matching : Option DbError)
        → Books matching
        → ((done.db ≡ db) × (done.events ≡ []))
          ⊎ (place_order z digest dto_text booking_text engine ids tenant_id dto key now db
              ≡ some done)
    unfolding create_booking_internal
    ends matching h =
        elim (Result-cases (check_booking digest (booking_text dto) tenant_id dto key now db)) [
          | inr (e, refusal) ↦ inl (ground arith, ground arith)
          | inl (replayed, fine) ↦ elim (Option-cases replayed) [
            | inr (order, there) ↦ inl (ground arith, ground arith)
            | inl new_request ↦ elim (Option-cases matching) [
              | inr (e, failed) ↦ inl (ground arith, ground arith)
              | inl committed ↦ inr (ground arith)
            ]
          ]
        ]

    -- A public booking keeps the orders free of double bookings, however the database settles its
    -- transactions, if the identifier of its new order is fresh.
    pub create_booking_internal-IsSafe :
        (matching : Option DbError)
        → IsFresh ids.order db.orders
        → Books matching
        → IsSafe db.orders
        → IsSafe done.db.orders
    create_booking_internal-IsSafe matching is_new h safe = elim (ends matching h) [
      | inl (same, silent) ↦ subst (λ (d : Db). IsSafe d.orders) (sym same) safe
      | inr placed ↦
          Reach-IsSafe z digest dto_text
            (place_order-Reach z digest dto_text booking_text engine ids tenant_id dto key now db
              done is_new placed)
            safe
    ]

    -- A public booking that throws has changed no order and sent no event. What it leaves is the rows
    -- of before, or these with the client and the vehicle that it matched, which stay if it inserted
    -- them.
    pub create_booking_internal-threw :
        (matching : Option DbError) (t : Thrown)
        → Books matching
        → done.outcome ≡ threw t
        → (done.db.orders ≡ db.orders)
          × (done.events ≡ [])
          × ((done.db ≡ db) ⊎ (done.db ≡ (match_client ids.client ids.vehicle tenant_id dto db).1))
    create_booking_internal-threw matching t h failed = elim (ends matching h) [
      | inl (same, silent) ↦ (ap (λ (d : Db). d.orders) same, silent, inl same)
      | inr placed ↦
          let (same, silent) = place_order_threw t placed failed in
          (
            ap (λ (d : Db). d.orders) same
                ∙ match_client_orders ids.client ids.vehicle tenant_id dto db,
            silent,
            inr same,
          )
    ]
