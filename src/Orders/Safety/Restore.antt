-- ===== src/Orders/Safety/Restore.antt =====
-- Restoring a deleted order, and double bookings.
use wash_flow.Prelude.{
  ℕ, ◌≡◌, refl, ap, ◌∙◌, find?, subst, inl, inr, Bool, true, false, Option, none, some, List, arith,
  All, All-map, ok, Result-cases, Option-cases, Bool-cases, find?_passes, update_where, ◌==◌, ◌&&◌,
  is_some,
}
use wash_flow.Database.{Db, Order, OrderStatus, is_active_status}
use wash_flow.Common.Zones.{Zones}
use wash_flow.Common.BookingSettings.{resolve_booking_settings}
use wash_flow.Occupancy.{work_post, employee, is_live}
use wash_flow.Occupancy.Apart.{Apart}
use wash_flow.Occupancy.Updates.{Apart-shrink, Apart-move, only_row}
use wash_flow.Orders.Status.{valid_status_transitions}
use wash_flow.Orders.Resources.{Resources, reserve_resources, or_null}
use wash_flow.Orders.Resources.Laws.{AllFree, reserve_resources-AllFree, reserve_resources_keeps}
use wash_flow.Orders.Changes.{in_scope, is_terminal, restore_reservation, reserve_again, restore_tx}
use wash_flow.Orders.Safety.{IsSafe}

terminal-not_active : (s : OrderStatus) → is_terminal s ≡ true → is_active_status s ≡ false
unfolding valid_status_transitions
terminal-not_active s h = ground arith

-- A restored order is terminal, or its slots are free of all orders.
reserve_again-frees :
    (z : Zones) (tenant_id : ℕ) (db : Db) (o : Order)
    → reserve_again z tenant_id db o ≡ ok tt
    → is_terminal o.status ≡ false
    → (buffer : ℕ) × (r : Resources) × (reserve_resources z db
          (restore_reservation tenant_id o buffer)
          (or_null o.work_post_id)
          (or_null o.assigned_employee_id)
        ≡ ok r)
unfolding reserve_again
reserve_again-frees z tenant_id db o h live =
    let buffer =
      (resolve_booking_settings db.booking_settings tenant_id
        (some o.branch_id)).buffer_time_minutes in
    elim (Result-cases (
      reserve_resources z db (restore_reservation tenant_id o buffer) (or_null o.work_post_id)
        (or_null o.assigned_employee_id))) [
          | inl (r, e) ↦ (buffer, r, e)
          | inr (e, refused) ↦ absurd (ground arith)
        ]

abbrev is_deleted_row : ℕ → ℕ → ℕ → Order → Bool
is_deleted_row tenant_id id branch_id o =
    o.id == id && (o.tenant_id == tenant_id && (o.branch_id == branch_id && is_some o.deleted_at))

abbrev undeleted : Order → Order
undeleted o = record o { deleted_at = none }

module _ (key : Order → Option ℕ) (keeps : (q : Order) → key (undeleted q) ≡ key q)
    (os : List Order) (tenant_id : ℕ) (o : Order) (only : All (λ q. q.id ≡ o.id → q ≡ o) os)
    (a : Apart key os) where
  restore_terminal-Apart :
      is_terminal o.status ≡ true
      → Apart key (update_where (is_deleted_row tenant_id o.id o.branch_id) undeleted os)
  restore_terminal-Apart terminal =
      Apart-shrink key _ undeleted os
        (All-map (λ q. q.id ≡ o.id → q ≡ o) _ os
          (λ q h hit. record {
            same_id = refl;
            same_tenant = refl;
            same_key = keeps q;
            same_start = refl;
            same_end = refl;
            no_revival = λ live. absurd (ended q (h (ground arith)) live);
          })
          only)
        a
    where
      ended : (q : Order) → q ≡ o → is_live (undeleted q) ≡ true → ⊥
      ended q e live =
          ground (arith, terminal-not_active o.status terminal, ap (λ (r : Order). r.status) e)

  restore_live-Apart :
      o.tenant_id ≡ tenant_id
      → (buffer : ℕ) → AllFree key (restore_reservation tenant_id o buffer) (key o) os
      → Apart key (update_where (is_deleted_row tenant_id o.id o.branch_id) undeleted os)
  unfolding restore_reservation
  restore_live-Apart same buffer free =
      Apart-move key _ undeleted o.id
        (record {
          tenant_id = tenant_id;
          resource = key o;
          start = o.scheduled_start;
          end = o.scheduled_end;
        })
        (λ q hit. ground arith) (λ q. refl) os
        (All-map (λ q. q.id ≡ o.id → q ≡ o) _ os
          (λ q h hit.
            let e : q ≡ o = h (ground arith) in
            record {
              tenant = ground arith;
              resource = keeps q ∙ ap key e;
              start = ap (λ (r : Order). r.scheduled_start) e;
              end = ap (λ (r : Order). r.scheduled_end) e;
            })
          only)
        (All-map _ _ os (λ q f ne. f refl) free) a

-- The transaction of `restore` keeps the orders free of double bookings.
pub restore_tx-IsSafe :
    (z : Zones) (tenant_id id : ℕ) (branch_id : Option ℕ) (db db' : Db) (c : Order)
    → IsSafe db.orders
    → restore_tx z tenant_id id branch_id db ≡ ok (c, db')
    → IsSafe db'.orders
unfolding restore_tx
restore_tx-IsSafe z tenant_id id branch_id db db' c s h =
    let test = λ (o : Order). o.id == id && (o.tenant_id == tenant_id && in_scope branch_id o) in
    elim (Option-cases (find? test db.orders)) [
      | inl missing ↦ absurd (ground arith)
      | inr (o, found) ↦
          let passed = find?_passes test db.orders o found in
          let same : o.id ≡ id = ground arith in
          let tenant : o.tenant_id ≡ tenant_id = ground arith in
          let granted : reserve_again z tenant_id db o ≡ ok tt = ground arith in
          let done : record db {
            orders = update_where (is_deleted_row tenant_id o.id o.branch_id) undeleted db.orders;
          }
              ≡ db' =
            ground arith in
          let posts_only = only_row work_post test db.orders o found s.posts in
          let employees_only = only_row employee test db.orders o found s.employees in
          subst (λ (d : Db). IsSafe d.orders) done
            (elim (Bool-cases (is_terminal o.status)) [
              | inl terminal ↦ record {
                posts =
                    restore_terminal-Apart work_post (λ _. refl) db.orders tenant_id o posts_only
                      s.posts terminal;
                employees =
                    restore_terminal-Apart employee (λ _. refl) db.orders tenant_id o employees_only
                      s.employees terminal;
              }
              | inr live ↦
                  let (buffer, r, reserved) = reserve_again-frees z tenant_id db o granted live in
                  let params = restore_reservation tenant_id o buffer in
                  let (posts, employees) =
                    reserve_resources-AllFree z db params (or_null o.work_post_id)
                      (or_null o.assigned_employee_id) r reserved in
                  let (own_post, own_employee) =
                    reserve_resources_keeps z db params o.work_post_id o.assigned_employee_id r
                      reserved in
                  record {
                    posts =
                        restore_live-Apart work_post (λ _. refl) db.orders tenant_id o posts_only
                          s.posts tenant buffer
                          (subst (λ k. AllFree work_post params k db.orders) own_post posts);
                    employees =
                        restore_live-Apart employee (λ _. refl) db.orders tenant_id o employees_only
                          s.employees tenant buffer
                          (subst (λ k. AllFree employee params k db.orders) own_employee employees);
                  }
            ])
    ]
