-- ===== src/Orders/Safety/Moves.antt =====
-- Rescheduling an order, and double bookings.
use wash_flow.Prelude.{
  ℕ, ◌+◌, ◌-◌, ◌≡◌, refl, subst, inl, inr, true, Option, some, List, arith, All, All-intro, All-map,
  ok, Result-cases, Option-cases, update_where,
}
use wash_flow.Database.{Db, Order}
use wash_flow.Common.Zones.{Zones}
use wash_flow.Common.BookingSettings.{resolve_booking_settings}
use wash_flow.Occupancy.{work_post, employee, not_excluded}
use wash_flow.Occupancy.Apart.{Apart, Free}
use wash_flow.Occupancy.Updates.{Apart-move}
use wash_flow.Orders.Resources.{Resources, reserve_resources}
use wash_flow.Orders.Resources.Laws.{reserve_resources-AllFree}
use wash_flow.Orders.Changes.{
  is_row, find_order, RescheduleOrderDto, or_keep, moved, Rescheduled, plan_move, reschedule_tx,
  reschedule_reservation,
}
use wash_flow.Orders.Safety.{IsSafe}

-- What a planned move has reserved.
plan_move-reserves :
    (z : Zones) (tenant_id id now : ℕ) (dto : RescheduleOrderDto) (db : Db) (o : Order)
    (r : Resources)
    → plan_move z tenant_id id now dto db o ≡ ok r
    → (buffer : ℕ) × (reserve_resources z db
          (reschedule_reservation tenant_id id o dto.scheduled_start
            (dto.scheduled_start + (o.scheduled_end - o.scheduled_start))
            buffer)
          (or_keep dto.work_post_id o.work_post_id)
          (or_keep dto.assigned_employee_id o.assigned_employee_id)
        ≡ ok r)
unfolding plan_move
plan_move-reserves z tenant_id id now dto db o r h = (
  (resolve_booking_settings db.booking_settings tenant_id (some o.branch_id)).buffer_time_minutes,
  ground arith,
)

move-Apart :
    (key : Order → Option ℕ) (tenant_id id start end : ℕ) (branch_id buffer : ℕ) (r : Resources)
    (own : Option ℕ) (os : List Order)
    → ((q : Order) → key (moved start end r q) ≡ own)
    → All
        (λ q.
          not_excluded (some id) q.id ≡ true
          → Free key (record { tenant_id = tenant_id; resource = own; start = start; end = end }) q)
        os
    → Apart key os
    → Apart key (update_where (is_row tenant_id id) (moved start end r) os)
move-Apart key tenant_id id start end branch_id buffer r own os keeps free a =
    Apart-move key (is_row tenant_id id) (moved start end r) id
      (record { tenant_id = tenant_id; resource = own; start = start; end = end })
      (λ q hit. ground arith) (λ q. refl) os
      (All-intro _ os
        (λ q hit. record { tenant = ground arith; resource = keeps q; start = refl; end = refl }))
      (All-map _ _ os (λ q f ne. f (ground arith)) free) a

-- The transaction of `reschedule` keeps the orders free of double bookings.
pub reschedule_tx-IsSafe :
    (z : Zones) (tenant_id id now : ℕ) (dto : RescheduleOrderDto) (user_branch_id : Option ℕ)
    (db db' : Db) (c : Rescheduled)
    → IsSafe db.orders
    → reschedule_tx z tenant_id id now dto user_branch_id db ≡ ok (c, db')
    → IsSafe db'.orders
unfolding reschedule_tx reschedule_reservation
reschedule_tx-IsSafe z tenant_id id now dto user_branch_id db db' c s h =
    elim (Option-cases (find_order db tenant_id id user_branch_id)) [
      | inl missing ↦ absurd (ground arith)
      | inr (o, found) ↦ elim (Result-cases (plan_move z tenant_id id now dto db o)) [
        | inr (e, refused) ↦ absurd (ground arith)
        | inl (r, planned) ↦
            let (buffer, reserved) = plan_move-reserves z tenant_id id now dto db o r planned in
            let end = dto.scheduled_start + (o.scheduled_end - o.scheduled_start) in
            let (posts, employees) =
              reserve_resources-AllFree z db
                (reschedule_reservation tenant_id id o dto.scheduled_start end buffer)
                (or_keep dto.work_post_id o.work_post_id)
                (or_keep dto.assigned_employee_id o.assigned_employee_id) r reserved in
            subst IsSafe (ground arith) (record {
              posts =
                  move-Apart work_post tenant_id id dto.scheduled_start end 0 0 r r.work_post_id
                    db.orders (λ _. refl) posts s.posts;
              employees =
                  move-Apart employee tenant_id id dto.scheduled_start end 0 0 r
                    r.assigned_employee_id db.orders (λ _. refl) employees s.employees;
            })
      ]
    ]
