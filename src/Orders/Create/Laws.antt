-- ===== src/Orders/Create/Laws.antt =====
-- What a new order is worth and how long it takes, and what a repeated request gets.
use wash_flow.Prelude.{
  ℕ, ◌+◌, ◌*◌, ◌<◌, ◌≤◌, ◌≡◌, refl, inl, inr, true, false, Option, none, some, List, [], ◌∷◌, arith,
  ok, err, Result-cases, sum, map, length, ap, subst, ◌∙◌, not_found,
}
use wash_flow.Database.{Db, IdempotencyKey, Order, Service}
use wash_flow.Common.Zones.{Zones}
use wash_flow.Idempotency.{
  RequestIdentity, fresh, replay, claim_request, save_request, ttl_ms, find_by_key,
}
use wash_flow.Idempotency.Laws.{claim_request-find_by_key}
use wash_flow.Orders.Create.{
  CreateOrderDto, Pricing, Plan, find_by_ids, resolve_services_and_pricing, plan_order, order_of,
  order_line, find_cached, Created, insert_order, save_resource, claimed, create_tx,
}

sum_of_lines :
    (ss : List Service) → sum (map (λ l. l.price) (map order_line ss)) ≡ sum (map (λ s. s.price) ss)
sum_of_lines [] = refl
sum_of_lines (s ∷ ss) = ap (λ n. s.price + n) (sum_of_lines ss)

length_of_lines : (ss : List Service) → length (map order_line ss) ≡ length ss
length_of_lines [] = refl
length_of_lines (s ∷ ss) = omega (arith, length_of_lines ss)

resolve_services_and_pricing-ok :
    (db : Db) (tenant_id : ℕ) (ids : List ℕ) (p : Pricing)
    → resolve_services_and_pricing db tenant_id ids ≡ ok p
    → (p.services ≡ find_by_ids db tenant_id ids)
      × (length p.services ≡ length ids)
      × (p.total_price ≡ sum (map (λ s. s.price) p.services))
      × (p.total_duration ≡ sum (map (λ s. s.duration_min) p.services))
unfolding resolve_services_and_pricing
resolve_services_and_pricing-ok db tenant_id ids p h =
    (ground arith, ground arith, ground arith, ground arith)

module _ (z : Zones) (db : Db) (tenant_id : ℕ) (dto : CreateOrderDto) (now : ℕ) where
  plan_order-ok :
      (plan : Plan)
      → plan_order z db tenant_id dto now ≡ ok plan
      → (now ≤ dto.scheduled_start)
        × (0 < length dto.service_ids)
        × (resolve_services_and_pricing db tenant_id dto.service_ids ≡ ok plan.pricing)
        × (plan.scheduled_end ≡ dto.scheduled_start + plan.pricing.total_duration * 60000)
  unfolding plan_order
  plan_order-ok plan h = (ground arith, ground arith, ground arith, ground arith)

-- What is stated below of a new order.
abbrev pub IsPriced : Db → ℕ → CreateOrderDto → ℕ → Order → Type 0
IsPriced db tenant_id dto now o =
    let services = find_by_ids db tenant_id dto.service_ids in
    (now ≤ o.scheduled_start)
    × (o.services ≡ map order_line services)
    × (0 < length o.services)
    × (length o.services ≡ length dto.service_ids)
    × (o.total_price ≡ sum (map (λ l. l.price) o.services))
    × (o.scheduled_end ≡ o.scheduled_start + sum (map (λ s. s.duration_min) services) * 60000)

order_of-IsPriced :
    (z : Zones) (new_id tenant_id : ℕ) (dto : CreateOrderDto) (user_id : Option ℕ) (now : ℕ)
    (db : Db) (plan : Plan)
    → plan_order z db tenant_id dto now ≡ ok plan
    → IsPriced db tenant_id dto now (order_of new_id tenant_id dto user_id plan)
unfolding order_of
order_of-IsPriced z new_id tenant_id dto user_id now db plan planned =
    let (not_past, some_service, priced, ends) =
      plan_order-ok z db tenant_id dto now plan planned in
    let (found, all, total, duration) =
      resolve_services_and_pricing-ok db tenant_id dto.service_ids plan.pricing priced in
    let lines = sum_of_lines plan.pricing.services in
    let counted = length_of_lines plan.pricing.services in
    let minutes = ap (λ ss. sum (map (λ s. s.duration_min) ss)) found in
    (
      not_past,
      ap (map order_line) found,
      omega (arith, counted, all, some_service),
      omega (arith, counted, all),
      omega (arith, total, lines),
      omega (arith, ends, duration, minutes),
    )

-- A new order starts no earlier than it is made, has one line for each service that was asked for,
-- all of them active services of the tenant at their current price, costs what its lines add up to,
-- and ends after the time that its services take together.
pub insert_order-IsPriced :
    (z : Zones) (new_id tenant_id : ℕ) (dto : CreateOrderDto) (user_id user_branch_id : Option ℕ)
    (now : ℕ) (db db' : Db) (o : Order)
    → insert_order z new_id tenant_id dto user_id user_branch_id now db ≡ ok (o, db')
    → IsPriced db tenant_id dto now o
unfolding insert_order
insert_order-IsPriced z new_id tenant_id dto user_id user_branch_id now db db' o h =
    elim (Result-cases (plan_order z db tenant_id dto now)) [
      | inl (plan, planned) ↦
          let made : order_of new_id tenant_id dto user_id plan ≡ o = ground arith in
          subst (IsPriced db tenant_id dto now) made
            (order_of-IsPriced z new_id tenant_id dto user_id now db plan planned)
      | inr (e, refused) ↦ absurd (ground arith)
    ]

module _ (z : Zones) (new_id tenant_id : ℕ) (dto : CreateOrderDto)
    (user_id user_branch_id : Option ℕ) where
  insert_order-keys :
      (now : ℕ) (db db' : Db) (o : Order)
      → insert_order z new_id tenant_id dto user_id user_branch_id now db ≡ ok (o, db')
      → db'.idempotency_keys ≡ db.idempotency_keys
  unfolding insert_order
  insert_order-keys now db db' o h = ground arith

  create_tx-saves :
      (identity : RequestIdentity) (now : ℕ) (db db' : Db) (c : Created)
      → create_tx z new_id tenant_id dto user_id user_branch_id now (some identity) db ≡ ok (c, db')
      → c.is_replay ≡ false
      → (keys : List IdempotencyKey) × (claim_request db.idempotency_keys identity now
          ≡ ok (fresh, keys))
        × (db'.idempotency_keys ≡ save_request keys identity c.order.id)
  unfolding create_tx claimed save_resource
  create_tx-saves identity now db db' c h new =
      elim (Result-cases (claim_request db.idempotency_keys identity now)) [
        | inl ((replay id, keys), granted) ↦ absurd (ground arith)
        | inl ((fresh, keys), granted) ↦
            let dbk = record db { idempotency_keys = keys } in
            elim (Result-cases
              (insert_order z new_id tenant_id dto user_id user_branch_id now dbk)) [
                | inl ((o, db1), inserted) ↦
                    let same = insert_order-keys now dbk db1 o inserted in
                    let order : c.order ≡ o = ground arith in
                    let left : db'.idempotency_keys
                        ≡ save_request db1.idempotency_keys identity o.id =
                      ground arith in
                    (keys, granted, left ∙ rw (same, order) refl)
                | inr (e, refused) ↦ absurd (ground arith)
              ]
        | inr (e, refused) ↦ absurd (ground arith)
      ]

-- A request that made an order under a key is answered, before the key expires and if the row of the
-- key is as the request left it, with that order as it is then found, if the caller may see it; it
-- inserts nothing, whatever other rows have changed, and an order that is not found is reported so.
pub create_tx-replays :
    (z : Zones) (new_id other_id tenant_id : ℕ) (dto : CreateOrderDto)
    (user_id user_branch_id : Option ℕ) (identity : RequestIdentity) (now later : ℕ)
    (db db' db2 : Db) (c : Created)
    → create_tx z new_id tenant_id dto user_id user_branch_id now (some identity) db ≡ ok (c, db')
    → c.is_replay ≡ false
    → later < now + ttl_ms
    → find_by_key identity.tenant_id identity.key db2.idempotency_keys
      ≡ find_by_key identity.tenant_id identity.key db'.idempotency_keys
    → let again =
        create_tx z other_id tenant_id dto user_id user_branch_id later (some identity) db2 in
      let found = find_cached db2 tenant_id dto.branch_id user_branch_id c.order.id in
      ((o : Order) → found ≡ some o → again ≡ ok (record { order = o; is_replay = true }, db2))
      × (found ≡ none → again ≡ err (not_found "Order not found"))
unfolding create_tx claimed
create_tx-replays z new_id other_id tenant_id dto user_id user_branch_id identity now later db db'
      db2 c h new live same_key =
    let (keys, granted, saved) =
      create_tx-saves z new_id tenant_id dto user_id user_branch_id identity now db db' c h new in
    let answered =
      claim_request-find_by_key db.idempotency_keys keys db2.idempotency_keys identity now later
        c.order.id granted
        (same_key ∙ ap (λ rows. find_by_key identity.tenant_id identity.key rows) saved) live in
    (λ o found. ground arith, λ gone. ground arith)
