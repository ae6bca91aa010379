-- ===== src/Orders/Employees.antt =====
-- src/modules/orders/employee-eligibility.util.ts: which employee can take an order.
pub mod Laws
pub mod Success
use wash_flow.Prelude.{
  ◌>>=◌, ℕ, Bool, false, not, Option, none, some, List, [], ◌∷◌, ◌&&◌, leb, ◌==◌, is_none, is_some,
  get_or, find?, filter, length, any, sort_by, Result, ok, bad_request, or_throw, if◌then◌else◌,
}
use wash_flow.Database.{Db, Order, EmployeeProfile, find_active_branch, belongs_to_branch}
use wash_flow.Occupancy.{busy, employee, buffered_start, buffered_end}
use wash_flow.Common.Zones.{Zones}
use wash_flow.Common.WorkingWindow.{WorkingWindow, working_window_for_interval}

-- EmployeeReservation, and the like parameters of `resolveWorkPost`.
pub record Reservation : Type 0 where
  pub tenant_id : ℕ
  pub branch_id : ℕ
  pub scheduled_start : ℕ
  pub scheduled_end : ℕ
  pub buffer_minutes : ℕ
  pub exclude_order_id : Option ℕ

-- `{ lte: … }` and `{ gte: … }`, which null does not meet.
abbrev is_at_most : Option ℕ → ℕ → Bool
is_at_most none t = false
is_at_most (some s) t = leb s t

abbrev is_at_least : Option ℕ → ℕ → Bool
is_at_least none t = false
is_at_least (some s) t = leb t s

-- The relation filter `orders: { none: … }`.
unfoldable pub has_order : List Order → Reservation → ℕ → Bool
has_order orders params id =
    any
      (busy employee params.tenant_id id
        (buffered_start params.scheduled_start params.buffer_minutes)
        (buffered_end params.scheduled_end params.buffer_minutes) params.exclude_order_id)
      orders

-- `employeeEligibilityWhere`, at the window that it computes.
unfoldable pub employee_eligibility_where :
    Db → Reservation → WorkingWindow → EmployeeProfile → Bool
unfolding has_order
employee_eligibility_where db params window e =
    e.tenant_id == params.tenant_id
    && (e.branch_id == params.branch_id
        && (e.is_worker
            && (e.active
                && (is_none e.deleted_at
                    && (is_at_most e.work_start_time window.start_time
                        && (is_at_least e.work_end_time window.end_time
                            && (e.user.tenant_id == params.tenant_id
                                && (e.user.is_active
                                    && (is_none e.user.deleted_at
                                        && (belongs_to_branch db.branches params.tenant_id
                                              params.branch_id e
                                            && not (has_order db.orders params e.id)))))))))))

unfoldable pub count_configured : Db → Reservation → ℕ
count_configured db params = length (
    filter
      (λ e.
        e.tenant_id == params.tenant_id
        && (e.branch_id == params.branch_id
            && (e.active && (is_none e.deleted_at && is_some e.work_start_time))))
      db.employee_profiles)

abbrev first {ℓ} : {A : Type ℓ} → List A → Option A
first [] = none
first (x ∷ xs) = some x

first_eligible : Db → Reservation → WorkingWindow → Option ℕ
first_eligible db params window =
    elim (first (
      sort_by (λ e. e.id)
        (filter (employee_eligibility_where db params window) db.employee_profiles))) [
          | none ↦ none
          | some e ↦ some e.id
        ]

-- The check of the candidate once its row is locked.
still_eligible : Db → Reservation → WorkingWindow → ℕ → Option EmployeeProfile
still_eligible db params window candidate =
    find? (λ e. employee_eligibility_where db params window e && e.id == candidate)
      db.employee_profiles

module _ (z : Zones) where
  eligibility_window : Db → Reservation → Option WorkingWindow
  unfolding find_active_branch
  eligibility_window db params =
      elim (find_active_branch params.tenant_id params.branch_id db.branches) [
        | none ↦ none
        | some branch ↦
            working_window_for_interval z (get_or branch.timezone "UTC") params.scheduled_start
              params.scheduled_end
      ]

  assign : Db → Reservation → Option ℕ → Result (Option ℕ)
  unfolding eligibility_window first_eligible still_eligible
  assign db params assigned_employee_id = do
    let unavailable = bad_request (
        if is_some assigned_employee_id
        then "Assigned employee is not available for the requested time in this branch"
        else "No available employees for the requested time")
    window ← or_throw (eligibility_window db params) unavailable
    candidate ←
        or_throw
          (if is_some assigned_employee_id
            then assigned_employee_id
            else first_eligible db params window)
          unavailable
    eligible ← or_throw (still_eligible db params window candidate) unavailable
    ok (some eligible.id)

  -- `reserveEmployee`; a branch with no configured employee assigns none on its own.
  unfoldable pub reserve_employee : Db → Reservation → Option ℕ → Result (Option ℕ)
  unfolding assign count_configured
  reserve_employee db params assigned_employee_id =
      if is_none assigned_employee_id && count_configured db params == 0
      then ok none
      else assign db params assigned_employee_id
