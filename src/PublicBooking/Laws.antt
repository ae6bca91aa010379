-- ===== src/PublicBooking/Laws.antt =====
-- What a public booking does to the orders.
use Prim.Native.String.{String}
use wash_flow.Prelude.{
  ℕ, ◌≡◌, ◌⊎◌, refl, sym, subst, ◌∙◌, Option, none, some, arith, Result, ok, err, find?,
  Option-cases, inl, inr,
}
use wash_flow.Database.{Db, Order}
use wash_flow.Common.Zones.{Zones}
use wash_flow.Orders.Transaction.{DbError}
use wash_flow.Orders.Events.{Done}
use wash_flow.Orders.Create.{CreateOrderDto, create}
use wash_flow.Orders.Safety.Create.{IsFresh}
use wash_flow.Orders.Safety.Service.{Reach, here, next, creates, elsewhere}
use wash_flow.PublicBooking.{
  CreateBookingDto, BookingConfirmation, is_client, is_vehicle, find_or_create_client,
  find_or_create_vehicle, match_client, order_dto,
}
use wash_flow.PublicBooking.Booking.{NewIds, after_create, place_order}

find_or_create_client_orders :
    (new_id tenant_id : ℕ) (phone : String) (db : Db)
    → (find_or_create_client new_id tenant_id phone db).1.orders ≡ db.orders
unfolding find_or_create_client
find_or_create_client_orders new_id tenant_id phone db =
    elim (Option-cases (find? (is_client tenant_id phone) db.clients)) [
      | inl missing ↦ ground arith
      | inr (c, found) ↦ ground arith
    ]

find_or_create_vehicle_orders :
    (new_id tenant_id client_id : ℕ) (plate : String) (db : Db)
    → (find_or_create_vehicle new_id tenant_id client_id plate db).1.orders ≡ db.orders
unfolding find_or_create_vehicle
find_or_create_vehicle_orders new_id tenant_id client_id plate db =
    elim (Option-cases (find? (is_vehicle tenant_id client_id plate) db.vehicles)) [
      | inl missing ↦ ground arith
      | inr (v, found) ↦ ground arith
    ]

pub match_client_orders :
    (new_client_id new_vehicle_id tenant_id : ℕ) (dto : CreateBookingDto) (db : Db)
    → (match_client new_client_id new_vehicle_id tenant_id dto db).1.orders ≡ db.orders
unfolding match_client
match_client_orders new_client_id new_vehicle_id tenant_id dto db =
    let (client_id, db1) = find_or_create_client new_client_id tenant_id dto.phone db in
    find_or_create_vehicle_orders new_vehicle_id tenant_id client_id dto.license_plate db1
    ∙ find_or_create_client_orders new_client_id tenant_id dto.phone db

module _ (z : Zones) (digest : String → String) (dto_text : CreateOrderDto → String)
    (booking_text : CreateBookingDto → String) (engine : ℕ → Option DbError) where
  after_create_db :
      (dto : CreateBookingDto) (db1 : Db) (r : Result (Option (Done Order)))
      (done : Done BookingConfirmation)
      → after_create dto db1 r ≡ some done
      → (done.db ≡ db1) ⊎ ((made : Done Order) × (r ≡ ok (some made)) × (made.db ≡ done.db))
  after_create_db dto db1 (err e) done h = inl (ground arith)
  after_create_db dto db1 (ok none) done h = cc
  after_create_db dto db1 (ok (some made)) done h = inr (made, refl, ground arith)

  module _ (ids : NewIds) (tenant_id : ℕ) (dto : CreateBookingDto) (key : Option String) (now : ℕ)
      (db : Db) (done : Done BookingConfirmation) where
    abbrev pub History : Db → Type 0
    History d = Reach z digest dto_text db d

    pub place_order-Reach :
        IsFresh ids.order db.orders
        → place_order z digest dto_text booking_text engine ids tenant_id dto key now db ≡ some done
        → History done.db
    unfolding place_order
    place_order-Reach is_new h =
        let (matched, db1) = match_client ids.client ids.vehicle tenant_id dto db in
        let same = match_client_orders ids.client ids.vehicle tenant_id dto db in
        let written : History db1 = next here (elsewhere same) in
        let made_of =
          create z digest dto_text engine ids.order tenant_id (order_dto dto matched) none key none
            (some (booking_text dto)) now db1 in
        elim (after_create_db dto db1 made_of done h) [
          | inl left ↦ subst History (sym left) written
          | inr (made, created, left) ↦ subst History left (
              next written (
                creates engine ids.order tenant_id (order_dto dto matched) none key none
                  (some (booking_text dto)) now made
                  (subst (λ os. IsFresh ids.order os) (sym same) is_new) created))
        ]
