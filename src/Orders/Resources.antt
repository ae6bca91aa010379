-- ===== src/Orders/Resources.antt =====
-- `reserveResources` and `resolveWorkPost` of src/modules/orders/orders.service.ts.
pub mod Laws
pub mod Success
pub mod FirstFree
use wash_flow.Prelude.{
  ℕ, Bool, Option, none, some, List, [], ◌∷◌, ◌&&◌, ◌==◌, is_none, find?, filter, sort_by, Result,
  ok, err, bad_request, conflict, or_throw, ◌>>=◌, ◌>>◌,
}
use wash_flow.Database.{Db, WorkPost, find_active_branch}
use wash_flow.Scheduling.{reserve_slot}
use wash_flow.Common.Zones.{Zones}
use wash_flow.Orders.Employees.{Reservation, reserve_employee}

-- A parameter of the type `string | null | undefined`.
pub data Choice : Type 0 where
  null undefined : Choice
  given : ℕ → Choice

abbrev pub or_null : Option ℕ → Choice
or_null none = null
or_null (some id) = given id

-- `x ?? undefined`
abbrev pub or_undefined : Option ℕ → Choice
or_undefined none = undefined
or_undefined (some id) = given id

unfoldable pub reserve_post : Db → Reservation → ℕ → Result (Unit {0})
reserve_post db params work_post_id = reserve_slot db.orders (record {
  tenant_id = params.tenant_id;
  work_post_id = work_post_id;
  scheduled_start = params.scheduled_start;
  scheduled_end = params.scheduled_end;
  buffer_minutes = params.buffer_minutes;
  exclude_order_id = params.exclude_order_id;
})

-- `workPostWhere`
abbrev pub is_usable_post : Reservation → WorkPost → Bool
is_usable_post params wp =
    wp.tenant_id == params.tenant_id
    && (wp.branch_id == params.branch_id && (wp.is_active && is_none wp.deleted_at))

-- The loop over the posts: a post that is taken is passed over, any other failure is thrown.
unfoldable pub first_free_post : Db → Reservation → List WorkPost → Result ℕ
first_free_post db params [] = err (bad_request "No available work posts for the requested time")
first_free_post db params (wp ∷ wps) =
    let rest = first_free_post db params wps in
    elim (reserve_post db params wp.id) [
      | ok _ ↦ ok wp.id
      | err e ↦ elim e [ conflict _ ↦ rest | other ↦ err other ]
    ]

abbrev pub posts_of : Db → Reservation → List WorkPost
posts_of db params = sort_by (λ wp. wp.id) (filter (is_usable_post params) db.work_posts)

given_post : Db → Reservation → ℕ → Result ℕ
given_post db params work_post_id = do
  wp ←
      or_throw (find? (λ wp. wp.id == work_post_id && is_usable_post params wp) db.work_posts)
        (bad_request "Work post not found or inactive in this branch")
  reserve_post db params work_post_id
  ok work_post_id

chosen_post : Db → Reservation → Option ℕ → Result ℕ
unfolding given_post
chosen_post db params none = first_free_post db params (posts_of db params)
chosen_post db params (some work_post_id) = given_post db params work_post_id

unfoldable pub resolve_work_post : Db → Reservation → Option ℕ → Result ℕ
unfolding chosen_post
resolve_work_post db params work_post_id = do
  branch ←
      or_throw (find_active_branch params.tenant_id params.branch_id db.branches)
        (bad_request "Branch not found or inactive")
  chosen_post db params work_post_id

pub record Resources : Type 0 where
  pub work_post_id : Option ℕ
  pub assigned_employee_id : Option ℕ

post_for : Db → Reservation → Choice → Result (Option ℕ)
post_for db params null = ok none
post_for db params undefined = resolve_work_post db params none >>= λ id. ok (some id)
post_for db params (given id) = resolve_work_post db params (some id) >>= λ id'. ok (some id')

employee_for : Zones → Db → Reservation → Choice → Result (Option ℕ)
employee_for z db params null = ok none
employee_for z db params undefined = reserve_employee z db params none
employee_for z db params (given id) = reserve_employee z db params (some id)

-- `reserveResources`: a null keeps a legacy order without the resource.
unfoldable pub reserve_resources : Zones → Db → Reservation → Choice → Choice → Result Resources
unfolding post_for employee_for
reserve_resources z db params work_post assigned_employee = do
  work_post_id ← post_for db params work_post
  assigned_employee_id ← employee_for z db params assigned_employee
  ok (record { work_post_id = work_post_id; assigned_employee_id = assigned_employee_id })
