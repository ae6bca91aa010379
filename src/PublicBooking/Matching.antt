-- ===== src/PublicBooking/Matching.antt =====
-- Whom later bookings with the same phone and licence plate are matched with.
use Prim.Native.String.{String}
use text.Mathlib.Text.{◌==◌ as str_eq}
use text.Mathlib.TextEquality.{eq_iff}
use wash_flow.Prelude.{
  ℕ, ◌≡◌, refl, sym, ap, ◌∙◌, none, some, List, [], ◌∷◌, arith, find?, Option-cases, Bool-cases,
  inl, inr, ◌==◌, ◌&&◌,
}
use wash_flow.Database.{Db, Client, Vehicle}
use wash_flow.PublicBooking.{
  CreateBookingDto, is_client, is_vehicle, find_or_create_client, find_or_create_vehicle,
  match_client,
}

-- The matching of a booking, with the identifiers of the rows that it may insert.
pub record Matching : Type 0 where
  pub client_id : ℕ
  pub vehicle_id : ℕ
  pub tenant_id : ℕ
  pub dto : CreateBookingDto

unfoldable pub match_all : List Matching → Db → Db
unfolding match_client
match_all [] db = db
match_all (m ∷ ms) db = match_all ms (match_client m.client_id m.vehicle_id m.tenant_id m.dto db).1

client_there :
    (new_id tenant_id : ℕ) (phone : String) (db : Db)
    → let r = find_or_create_client new_id tenant_id phone db in
      (c : Client) × (find? (is_client tenant_id phone) r.1.clients ≡ some c) × (c.id ≡ r.0)
unfolding find_or_create_client
client_there new_id tenant_id phone db =
    let own = (eq_iff phone phone).1 refl in
    elim (Option-cases (find? (is_client tenant_id phone) db.clients)) [
      | inl missing ↦ (
        record { id = new_id; tenant_id = tenant_id; phone = some phone; deleted_at = none },
        ground arith,
        ground arith,
      )
      | inr (c, found) ↦ (c, ground arith, ground arith)
    ]

vehicle_there :
    (new_id tenant_id client_id : ℕ) (plate : String) (db : Db)
    → let r = find_or_create_vehicle new_id tenant_id client_id plate db in
      (v : Vehicle) × (find? (is_vehicle tenant_id client_id plate) r.1.vehicles ≡ some v)
      × (v.id ≡ r.0)
unfolding find_or_create_vehicle
vehicle_there new_id tenant_id client_id plate db =
    let own = (eq_iff plate plate).1 refl in
    elim (Option-cases (find? (is_vehicle tenant_id client_id plate) db.vehicles)) [
      | inl missing ↦ (
        record {
          id = new_id;
          tenant_id = tenant_id;
          client_id = client_id;
          license_plate = some plate;
          deleted_at = none;
        },
        ground arith,
        ground arith,
      )
      | inr (v, found) ↦ (v, ground arith, ground arith)
    ]

-- A client is inserted only where there is none, so those that are found stay found.
client_kept :
    (new_id tenant_id other_tenant : ℕ) (phone other : String) (db : Db) (c : Client)
    → find? (is_client tenant_id phone) db.clients ≡ some c
    → find?
        (is_client tenant_id phone)
        (find_or_create_client new_id other_tenant other db).1.clients
      ≡ some c
unfolding find_or_create_client
client_kept new_id tenant_id other_tenant phone other db c found =
    elim (Option-cases (find? (is_client other_tenant other) db.clients)) [
      | inr (d, there) ↦ ground arith
      | inl missing ↦ elim (Bool-cases (other_tenant == tenant_id && str_eq other phone)) [
        | inr apart ↦ ground arith
        | inl same ↦
            let one_tenant : other_tenant ≡ tenant_id = ground arith in
            let one_phone : other ≡ phone = (eq_iff other phone).0 (ground arith) in
            absurd (ground (arith, one_tenant, one_phone))
      ]
    ]

vehicle_kept :
    (new_id tenant_id client_id other_tenant other_client : ℕ) (plate other : String) (db : Db)
    (v : Vehicle)
    → find? (is_vehicle tenant_id client_id plate) db.vehicles ≡ some v
    → find?
        (is_vehicle tenant_id client_id plate)
        (find_or_create_vehicle new_id other_tenant other_client other db).1.vehicles
      ≡ some v
unfolding find_or_create_vehicle
vehicle_kept new_id tenant_id client_id other_tenant other_client plate other db v found =
    elim (Option-cases (find? (is_vehicle other_tenant other_client other) db.vehicles)) [
      | inr (d, there) ↦ ground arith
      | inl missing ↦
          elim (Bool-cases
            (other_tenant == tenant_id && (other_client == client_id && str_eq other plate))) [
              | inr apart ↦ ground arith
              | inl same ↦
                  let one_tenant : other_tenant ≡ tenant_id = ground arith in
                  let one_client : other_client ≡ client_id = ground arith in
                  let one_plate : other ≡ plate = (eq_iff other plate).0 (ground arith) in
                  absurd (ground (arith, one_tenant, one_client, one_plate))
            ]
    ]

vehicle_clients :
    (new_id tenant_id client_id : ℕ) (plate : String) (db : Db)
    → (find_or_create_vehicle new_id tenant_id client_id plate db).1.clients ≡ db.clients
unfolding find_or_create_vehicle
vehicle_clients new_id tenant_id client_id plate db =
    elim (Option-cases (find? (is_vehicle tenant_id client_id plate) db.vehicles)) [
      | inl missing ↦ ground arith
      | inr (v, found) ↦ ground arith
    ]

client_vehicles :
    (new_id tenant_id : ℕ) (phone : String) (db : Db)
    → (find_or_create_client new_id tenant_id phone db).1.vehicles ≡ db.vehicles
unfolding find_or_create_client
client_vehicles new_id tenant_id phone db =
    elim (Option-cases (find? (is_client tenant_id phone) db.clients)) [
      | inl missing ↦ ground arith
      | inr (c, found) ↦ ground arith
    ]

module _ (tenant_id : ℕ) (phone plate : String) (c : Client) (v : Vehicle) where
  -- The client and its vehicle are the ones found.
  abbrev IsKnown : Db → Type 0
  IsKnown db =
      (find? (is_client tenant_id phone) db.clients ≡ some c)
      × (find? (is_vehicle tenant_id c.id plate) db.vehicles ≡ some v)

  match_client-IsKnown :
      (m : Matching) (db : Db)
      → IsKnown db
      → IsKnown (match_client m.client_id m.vehicle_id m.tenant_id m.dto db).1
  unfolding match_client
  match_client-IsKnown m db (client, vehicle) =
      let (id, db1) = find_or_create_client m.client_id m.tenant_id m.dto.phone db in
      (
        ap (λ cs. find? (is_client tenant_id phone) cs)
              (vehicle_clients m.vehicle_id m.tenant_id id m.dto.license_plate db1)
            ∙ client_kept m.client_id tenant_id m.tenant_id phone m.dto.phone db c client,
        vehicle_kept m.vehicle_id tenant_id c.id m.tenant_id id plate m.dto.license_plate db1 v (
            ap (λ vs. find? (is_vehicle tenant_id c.id plate) vs)
              (client_vehicles m.client_id m.tenant_id m.dto.phone db)
            ∙ vehicle),
      )

  match_all-IsKnown : (ms : List Matching) (db : Db) → IsKnown db → IsKnown (match_all ms db)
  unfolding match_all
  match_all-IsKnown [] db known = known
  match_all-IsKnown (m ∷ ms) db known =
      match_all-IsKnown ms (match_client m.client_id m.vehicle_id m.tenant_id m.dto db).1
        (match_client-IsKnown m db known)

  matches_known :
      (client_id vehicle_id : ℕ) (dto : CreateBookingDto) (db : Db)
      → dto.phone ≡ phone
      → dto.license_plate ≡ plate
      → IsKnown db
      → match_client client_id vehicle_id tenant_id dto db
        ≡ (record { client_id = c.id; vehicle_id = v.id }, db)
  unfolding match_client find_or_create_client find_or_create_vehicle
  matches_known client_id vehicle_id dto db same_phone same_plate (client, vehicle) = ground arith

IsKnown-after :
    (client_id vehicle_id tenant_id : ℕ) (dto : CreateBookingDto) (db : Db)
    → let r = match_client client_id vehicle_id tenant_id dto db in
      (c : Client) × (v : Vehicle) × IsKnown tenant_id dto.phone dto.license_plate c v r.1
      × (r.0 ≡ record { client_id = c.id; vehicle_id = v.id })
unfolding match_client
IsKnown-after client_id vehicle_id tenant_id dto db =
    let (id, db1) = find_or_create_client client_id tenant_id dto.phone db in
    let (c, there, same) = client_there client_id tenant_id dto.phone db in
    let (v, found, same_vehicle) = vehicle_there vehicle_id tenant_id id dto.license_plate db1 in
    let (_, db2) = find_or_create_vehicle vehicle_id tenant_id id dto.license_plate db1 in
    (
      c,
      v,
      (
        ap (λ cs. find? (is_client tenant_id dto.phone) cs)
              (vehicle_clients vehicle_id tenant_id id dto.license_plate db1)
            ∙ there,
        ap (λ i. find? (is_vehicle tenant_id i dto.license_plate) db2.vehicles) same ∙ found,
      ),
      rw (same, same_vehicle) refl,
    )

-- A phone and a licence plate that a tenant has been booked with once are matched again: a later
-- booking of the tenant with them finds the same client and vehicle and inserts no other, whatever
-- bookings of whatever tenants come in between, if nothing else writes clients and vehicles.
pub match_client-match_all :
    (client_id vehicle_id other_client_id other_vehicle_id tenant_id : ℕ)
    (dto later : CreateBookingDto) (between : List Matching) (db : Db)
    → later.phone ≡ dto.phone
    → later.license_plate ≡ dto.license_plate
    → let first = match_client client_id vehicle_id tenant_id dto db in
      let db' = match_all between first.1 in
      match_client other_client_id other_vehicle_id tenant_id later db' ≡ (first.0, db')
match_client-match_all client_id vehicle_id other_client_id other_vehicle_id tenant_id dto later
      between db same_phone same_plate =
    let first = match_client client_id vehicle_id tenant_id dto db in
    let db' = match_all between first.1 in
    let (c, v, known, same) = IsKnown-after client_id vehicle_id tenant_id dto db in
    let still = match_all-IsKnown tenant_id dto.phone dto.license_plate c v between first.1 known in
    matches_known tenant_id dto.phone dto.license_plate c v other_client_id other_vehicle_id later
      db' same_phone same_plate still
    ∙ ap (λ m. (m, db')) (sym same)
