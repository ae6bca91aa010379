-- ===== src/Orders/Resources/Laws.antt =====
-- What a successful reservation has checked of the orders already there.
use wash_flow.Prelude.{
  ℕ, ◌≡◌, subst, inl, inr, true, false, Option, none, some, List, [], ◌∷◌, arith, All, ok,
  Result-cases, ◌>>=◌,
}
use wash_flow.Database.{Db, Order, WorkPost}
use wash_flow.Scheduling.{reserve_slot}
use wash_flow.Common.Zones.{Zones}
use wash_flow.Occupancy.{work_post, employee, not_excluded}
use wash_flow.Occupancy.Apart.{Slot, Free, All-count_overlapping, All-has_order}
use wash_flow.Orders.Employees.{
  Reservation, employee_eligibility_where, reserve_employee, has_order,
}
use wash_flow.Orders.Employees.Laws.{reserve_employee-eligible, reserve_employee-given}
use wash_flow.Orders.Resources.{
  or_null, Choice, null, undefined, given, Resources, reserve_post, first_free_post, posts_of,
  resolve_work_post, post_for, employee_for, reserve_resources,
}

-- The slot that a reservation asks for on a resource.
abbrev pub slot : Reservation → Option ℕ → Slot
slot params resource = record {
  tenant_id = params.tenant_id;
  resource = resource;
  start = params.scheduled_start;
  end = params.scheduled_end;
}

-- Every order but the one left out leaves the slot free.
abbrev pub AllFree : (Order → Option ℕ) → Reservation → Option ℕ → List Order → Type 0
AllFree key params resource os =
    All (λ q. not_excluded params.exclude_order_id q.id ≡ true → Free key (slot params resource) q)
      os

AllFree-none :
    (key : Order → Option ℕ) (params : Reservation) (os : List Order) → AllFree key params none os
AllFree-none key params [] = tt
AllFree-none key params (q ∷ os) = (λ _ r e. cc, AllFree-none key params os)

reserve_post-AllFree :
    (db : Db) (params : Reservation) (id : ℕ)
    → reserve_post db params id ≡ ok tt
    → AllFree work_post params (some id) db.orders
unfolding reserve_post reserve_slot
reserve_post-AllFree db params id h =
    All-count_overlapping work_post params.tenant_id id params.scheduled_start params.scheduled_end
      params.buffer_minutes params.exclude_order_id db.orders (ground arith)

-- The post taken from the loop could be reserved.
pub first_free_post-reserves :
    (db : Db) (params : Reservation) (wps : List WorkPost) (id : ℕ)
    → first_free_post db params wps ≡ ok id
    → reserve_post db params id ≡ ok tt
unfolding first_free_post
first_free_post-reserves db params [] id h = cc
first_free_post-reserves db params (wp ∷ wps) id h =
    ground (arith, first_free_post-reserves db params wps id)

resolve_work_post-reserves :
    (db : Db) (params : Reservation) (choice : Option ℕ) (id : ℕ)
    → resolve_work_post db params choice ≡ ok id
    → reserve_post db params id ≡ ok tt
unfolding resolve_work_post
resolve_work_post-reserves db params none id h =
    ground (arith, first_free_post-reserves db params (posts_of db params) id)
resolve_work_post-reserves db params (some given_id) id h = ground arith

assigned_free :
    (z : Zones) (db : Db) (params : Reservation) (choice : Option ℕ) (id : ℕ)
    → reserve_employee z db params choice ≡ ok (some id)
    → has_order db.orders params id ≡ false
unfolding employee_eligibility_where
assigned_free z db params choice id h =
    let (window, e, branch, eligible, same, listed, found, computed) =
      reserve_employee-eligible z db params choice id h in
    ground arith

assigned-AllFree :
    (z : Zones) (db : Db) (params : Reservation) (choice assigned : Option ℕ)
    → reserve_employee z db params choice ≡ ok assigned
    → AllFree employee params assigned db.orders
unfolding has_order
assigned-AllFree z db params choice none h = AllFree-none employee params db.orders
assigned-AllFree z db params choice (some id) h =
    All-has_order employee params.tenant_id id params.scheduled_start params.scheduled_end
      params.buffer_minutes params.exclude_order_id db.orders
      (assigned_free z db params choice id h)

module _ (z : Zones) (db : Db) (params : Reservation) where
  resolved-AllFree :
      (choice id : Option ℕ)
      → (resolve_work_post db params choice >>= λ i. ok (some i)) ≡ ok id
      → AllFree work_post params id db.orders
  resolved-AllFree choice id h = elim (Result-cases (resolve_work_post db params choice)) [
    | inl (i, e) ↦
        subst (λ j. AllFree work_post params j db.orders) (ground arith)
          (reserve_post-AllFree db params i (resolve_work_post-reserves db params choice i e))
    | inr (e, failed) ↦ absurd (ground arith)
  ]

  post_for-AllFree :
      (choice : Choice) (id : Option ℕ)
      → post_for db params choice ≡ ok id
      → AllFree work_post params id db.orders
  unfolding post_for
  post_for-AllFree null id h =
      subst (λ i. AllFree work_post params i db.orders) (ground arith)
        (AllFree-none work_post params db.orders)
  post_for-AllFree undefined id h = resolved-AllFree none id h
  post_for-AllFree (given wanted) id h = resolved-AllFree (some wanted) id h

  employee_for-AllFree :
      (choice : Choice) (id : Option ℕ)
      → employee_for z db params choice ≡ ok id
      → AllFree employee params id db.orders
  unfolding employee_for
  employee_for-AllFree null id h =
      subst (λ i. AllFree employee params i db.orders) (ground arith)
        (AllFree-none employee params db.orders)
  employee_for-AllFree undefined id h = assigned-AllFree z db params none id h
  employee_for-AllFree (given wanted) id h = assigned-AllFree z db params (some wanted) id h

  -- Both resources of a reservation are free of every order but the one left out, around the
  -- reservation's interval.
  pub reserve_resources-AllFree :
      (post assigned : Choice) (r : Resources)
      → reserve_resources z db params post assigned ≡ ok r
      → AllFree work_post params r.work_post_id db.orders
        × AllFree employee params r.assigned_employee_id db.orders
  unfolding reserve_resources
  reserve_resources-AllFree post assigned r h = (
    post_for-AllFree post r.work_post_id (ground arith),
    employee_for-AllFree assigned r.assigned_employee_id (ground arith),
  )

  resolve_work_post-given :
      (wanted id : ℕ) → resolve_work_post db params (some wanted) ≡ ok id → id ≡ wanted
  unfolding resolve_work_post
  resolve_work_post-given wanted id h = ground arith

  post_for-given : (post id : Option ℕ) → post_for db params (or_null post) ≡ ok id → id ≡ post
  unfolding post_for
  post_for-given none id h = ground arith
  post_for-given (some wanted) id h =
      elim (Result-cases (resolve_work_post db params (some wanted))) [
        | inl (i, e) ↦ ground (arith, resolve_work_post-given wanted i e)
        | inr (e, failed) ↦ absurd (ground arith)
      ]

  employee_for-given :
      (assigned id : Option ℕ) → employee_for z db params (or_null assigned) ≡ ok id → id ≡ assigned
  unfolding employee_for
  employee_for-given none id h = ground arith
  employee_for-given (some wanted) id h = reserve_employee-given z db params wanted id h

  -- A resource that is asked for is the one reserved, and none is made up for null.
  pub reserve_resources_keeps :
      (post assigned : Option ℕ) (r : Resources)
      → reserve_resources z db params (or_null post) (or_null assigned) ≡ ok r
      → (r.work_post_id ≡ post) × (r.assigned_employee_id ≡ assigned)
  unfolding reserve_resources
  reserve_resources_keeps post assigned r h = (
    post_for-given post r.work_post_id (ground arith),
    employee_for-given assigned r.assigned_employee_id (ground arith),
  )
