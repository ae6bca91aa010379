-- ===== src/PublicBooking/Booking.antt =====
-- `createBooking` of src/modules/public-booking/public-booking.service.ts, and `replayPublicBooking` of
-- src/modules/orders/orders.service.ts. `matching` is the verdict of the database on the transaction
-- that finds or creates the client, `engine` its verdicts on the order's.
use Prim.Native.Char.{code}
use Prim.Native.String.{String}
use wash_flow.Prelude.{
  ℕ, Bool, true, false, not, Option, none, some, List, [], ◌&&◌, ◌||◌, ◌==◌, is_none, find?, Result,
  ok, err, Error, not_found, forbidden, conflict, bad_request, throw_if, or_throw, ◌>>=◌, ◌>>◌,
  if◌then◌else◌,
}
use wash_flow.Database.{Db, Order, find_active_branch}
use wash_flow.Common.Zones.{Zones}
use wash_flow.Common.BookingSettings.{resolve_booking_settings}
use wash_flow.Idempotency.{request_identity, read_request, RequestClaim, replay, order_v1}
use wash_flow.Orders.Transaction.{DbError, Outcome, returned, threw, Thrown, http, database}
use wash_flow.Orders.Events.{Done}
use wash_flow.Orders.Create.{CreateOrderDto, create}
use wash_flow.PublicBooking.{
  Tenant, CreateBookingDto, BookingConfirmation, to_booking_confirmation, resolve_tenant,
  resolve_tenant_by_id, pre_check, match_client, order_dto,
}

abbrev found_order : Db → ℕ → ℕ → ℕ → Option Order
found_order db tenant_id branch_id id =
    find?
      (λ o.
        o.id == id
        && (o.tenant_id == tenant_id && (o.branch_id == branch_id && is_none o.deleted_at)))
      db.orders

abbrev replayed_order : Db → ℕ → ℕ → Option RequestClaim → Result (Option Order)
replayed_order db tenant_id branch_id (some (replay id)) = do
  order ← or_throw (found_order db tenant_id branch_id id) (not_found "Order not found")
  ok (some order)
replayed_order db tenant_id branch_id claim = ok none

unfoldable pub replay_public_booking :
    (String → String) → Db → ℕ → ℕ → Option String → String → ℕ → Result (Option Order)
unfolding request_identity read_request
replay_public_booking digest db tenant_id branch_id key payload now = do
  identity ← request_identity digest tenant_id key "POST" "/public/book" order_v1 none payload
  elim identity [
    | none ↦ ok none
    | some i ↦ do
      claim ← read_request db.idempotency_keys i now
      replayed_order db tenant_id branch_id claim
  ]

-- The checks before anything is written; an order is that of a replayed request.
unfoldable pub check_booking :
    (String → String)
    → String
    → ℕ
    → CreateBookingDto
    → Option String
    → ℕ
    → Db
    → Result (Option Order)
unfolding find_active_branch replay_public_booking resolve_booking_settings pre_check
check_booking digest payload tenant_id dto key now db = do
  branch ←
      or_throw (find_active_branch tenant_id dto.branch_id db.branches)
        (not_found "Branch not found")
  replayed ← replay_public_booking digest db tenant_id dto.branch_id key payload now
  elim replayed [
    | some order ↦ ok (some order)
    | none ↦ do
      let settings = resolve_booking_settings db.booking_settings tenant_id (some dto.branch_id)
      throw_if (not settings.allow_online_booking) (forbidden "Online booking is not available")
      pre_check db tenant_id dto settings
      ok none
  ]

abbrev starts_with : String → String → Bool
starts_with String.[] s = true
starts_with (String.◌∷◌ c part) String.[] = false
starts_with (String.◌∷◌ c part) (String.◌∷◌ d s) = code c == code d && starts_with part s

-- `s.includes(part)`
abbrev includes : String → String → Bool
includes part String.[] = starts_with part String.[]
includes part (String.◌∷◌ c s) = starts_with part (String.◌∷◌ c s) || includes part s

abbrev pub slot_gone : Error
slot_gone = conflict "This time slot just became unavailable. Please select a different time."

abbrev pub reworded : Error → Error
reworded (bad_request message) =
    if includes "No available employees" message || includes "No available work posts" message
    then slot_gone
    else bad_request message
reworded e = e

abbrev pub reworded_thrown : Thrown → Thrown
reworded_thrown (http e) = http (reworded e)
reworded_thrown (database e) = database e

abbrev pub refused : Db → Thrown → Option (Done BookingConfirmation)
refused db thrown = some (record { outcome = threw thrown; db = db; events = [] })

abbrev confirmed : CreateBookingDto → Outcome Order → Outcome BookingConfirmation
confirmed dto (returned order) = returned (to_booking_confirmation order dto)
confirmed dto (threw thrown) = threw (reworded_thrown thrown)

-- What follows `ordersService.create`.
abbrev pub after_create :
    CreateBookingDto → Db → Result (Option (Done Order)) → Option (Done BookingConfirmation)
after_create dto db (err e) = refused db (http (reworded e))
after_create dto db (ok none) = none
after_create dto db (ok (some done)) =
    some (record { outcome = confirmed dto done.outcome; db = done.db; events = done.events })

-- The identifiers of the rows that a booking may insert.
pub record NewIds : Type 0 where
  pub client : ℕ
  pub vehicle : ℕ
  pub order : ℕ

module _ (z : Zones) (digest : String → String) (dto_text : CreateOrderDto → String)
    (booking_text : CreateBookingDto → String) (engine : ℕ → Option DbError) where
  unfoldable pub place_order :
      NewIds → ℕ → CreateBookingDto → Option String → ℕ → Db → Option (Done BookingConfirmation)
  unfolding match_client order_dto create
  place_order ids tenant_id dto key now db =
      let (matched, db1) = match_client ids.client ids.vehicle tenant_id dto db in
      after_create dto db1 (
        create z digest dto_text engine ids.order tenant_id (order_dto dto matched) none key none
          (some (booking_text dto)) now db1)

  unfoldable pub create_booking_internal :
      Option DbError
      → NewIds
      → ℕ
      → CreateBookingDto
      → Option String
      → ℕ
      → Db
      → Option (Done BookingConfirmation)
  unfolding check_booking place_order
  create_booking_internal matching ids tenant_id dto key now db =
      elim (check_booking digest (booking_text dto) tenant_id dto key now db) [
        | err e ↦ refused db (http e)
        | ok replayed ↦ elim replayed [
          | some order ↦ some (record {
            outcome = returned (to_booking_confirmation order dto);
            db = db;
            events = [];
          })
          | none ↦ elim matching [
            | some e ↦ refused db (database e)
            | none ↦ place_order ids tenant_id dto key now db
          ]
        ]
      ]

  unfoldable pub create_booking :
      List Tenant
      → Option DbError
      → NewIds
      → String
      → CreateBookingDto
      → Option String
      → ℕ
      → Db
      → Option (Done BookingConfirmation)
  unfolding resolve_tenant create_booking_internal
  create_booking tenants matching ids slug dto key now db = elim (resolve_tenant tenants slug) [
    | err e ↦ refused db (http e)
    | ok tenant ↦ create_booking_internal matching ids tenant.id dto key now db
  ]

  -- `createBookingByTenantId`, the call of the widget.
  unfoldable pub create_booking_by_tenant_id :
      List Tenant
      → Option DbError
      → NewIds
      → ℕ
      → CreateBookingDto
      → Option String
      → ℕ
      → Db
      → Option (Done BookingConfirmation)
  unfolding resolve_tenant_by_id create_booking_internal
  create_booking_by_tenant_id tenants matching ids tenant_id dto key now db =
      elim (resolve_tenant_by_id tenants tenant_id) [
        | err e ↦ refused db (http e)
        | ok tenant ↦ create_booking_internal matching ids tenant.id dto key now db
      ]
