-- ===== src/Orders/Resources/Success.antt =====
-- When the reservation of a work post that is asked for succeeds, and both resources with it.
use wash_flow.Prelude.{ℕ, ◌≡◌, true, Option, none, some, arith, ok, any, any-find?, ◌&&◌, ◌==◌}
use wash_flow.Database.{Db, Branch, find_active_branch}
use wash_flow.Common.Zones.{Zones}
use wash_flow.Orders.Employees.{Reservation, reserve_employee}
use wash_flow.Orders.Resources.{
  is_usable_post, given_post, chosen_post, resolve_work_post, reserve_post, reserve_resources,
  given, or_undefined, post_for, employee_for,
}

given_post-succeeds :
    (db : Db) (params : Reservation) (id : ℕ)
    → any (λ wp. wp.id == id && is_usable_post params wp) db.work_posts ≡ true
    → reserve_post db params id ≡ ok tt
    → given_post db params id ≡ ok id
unfolding given_post
given_post-succeeds db params id there free =
    let (wp, found) =
      any-find? (λ wp. wp.id == id && is_usable_post params wp) db.work_posts there in
    ground arith

resolve_work_post-succeeds :
    (db : Db) (params : Reservation) (branch : Branch) (id : ℕ)
    → find_active_branch params.tenant_id params.branch_id db.branches ≡ some branch
    → any (λ wp. wp.id == id && is_usable_post params wp) db.work_posts ≡ true
    → reserve_post db params id ≡ ok tt
    → resolve_work_post db params (some id) ≡ ok id
unfolding resolve_work_post chosen_post
resolve_work_post-succeeds db params branch id active there free =
    let reserved = given_post-succeeds db params id there free in ground arith

employee_for-undefined :
    (z : Zones) (db : Db) (params : Reservation) (choice r : Option ℕ)
    → reserve_employee z db params choice ≡ ok r
    → employee_for z db params (or_undefined choice) ≡ ok r
unfolding employee_for
employee_for-undefined z db params none r h = h
employee_for-undefined z db params (some id) r h = h

-- The post asked for is reserved, with an employee if the reservation of one succeeds.
pub reserve_resources-succeeds :
    (z : Zones) (db : Db) (params : Reservation) (branch : Branch) (id : ℕ)
    (choice employee : Option ℕ)
    → find_active_branch params.tenant_id params.branch_id db.branches ≡ some branch
    → any (λ wp. wp.id == id && is_usable_post params wp) db.work_posts ≡ true
    → reserve_post db params id ≡ ok tt
    → reserve_employee z db params choice ≡ ok employee
    → reserve_resources z db params (given id) (or_undefined choice)
      ≡ ok (record { work_post_id = some id; assigned_employee_id = employee })
unfolding reserve_resources post_for
reserve_resources-succeeds z db params branch id choice employee active there free assigned =
    let post = resolve_work_post-succeeds db params branch id active there free in
    let worker = employee_for-undefined z db params choice employee assigned in ground arith
