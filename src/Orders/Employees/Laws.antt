-- ===== src/Orders/Employees/Laws.antt =====
-- What an assignment has checked of the employee.
use mathlib.Core.List.{Memᴰ}
use wash_flow.Prelude.{
  find?-Memᴰ, get_or, ℕ, ◌≡◌, inl, inr, true, Option, some, arith, ok, Option-cases, find?_passes,
  is_some, if◌then◌else◌, ◌&&◌, ◌==◌,
}
use wash_flow.Database.{Db, EmployeeProfile, Branch, find_active_branch}
use wash_flow.Common.Zones.{Zones}
use wash_flow.Common.WorkingWindow.{WorkingWindow, working_window_for_interval}
use wash_flow.Orders.Employees.{
  Reservation, employee_eligibility_where, first_eligible, still_eligible, eligibility_window,
  assign, reserve_employee,
}

still_eligible-Memᴰ :
    (db : Db) (params : Reservation) (window : WorkingWindow) (candidate : ℕ) (e : EmployeeProfile)
    → still_eligible db params window candidate ≡ some e
    → Memᴰ e db.employee_profiles
unfolding still_eligible
still_eligible-Memᴰ db params window candidate e h =
    find?-Memᴰ (λ e. employee_eligibility_where db params window e && e.id == candidate)
      db.employee_profiles e h

still_eligible-passes :
    (db : Db) (params : Reservation) (window : WorkingWindow) (candidate : ℕ) (e : EmployeeProfile)
    → still_eligible db params window candidate ≡ some e
    → (employee_eligibility_where db params window e ≡ true) × (e.id ≡ candidate)
unfolding still_eligible
still_eligible-passes db params window candidate e h =
    let passed =
      find?_passes (λ e. employee_eligibility_where db params window e && e.id == candidate)
        db.employee_profiles e h in
    ground arith

assign-eligible :
    (z : Zones) (db : Db) (params : Reservation) (choice : Option ℕ) (id : ℕ)
    → assign z db params choice ≡ ok (some id)
    → (window : WorkingWindow) × (e : EmployeeProfile) × (employee_eligibility_where db params
          window e
        ≡ true)
      × (e.id ≡ id)
      × (eligibility_window z db params ≡ some window)
      × Memᴰ e db.employee_profiles
unfolding assign
assign-eligible z db params choice id h = elim (Option-cases (eligibility_window z db params)) [
  | inl closed ↦ absurd (ground arith)
  | inr (window, opened) ↦
      elim (Option-cases (if is_some choice then choice else first_eligible db params window)) [
        | inl nobody ↦ absurd (ground arith)
        | inr (candidate, picked) ↦
            elim (Option-cases (still_eligible db params window candidate)) [
              | inl lost ↦ absurd (ground arith)
              | inr (e, kept) ↦
                  let (passed, same) = still_eligible-passes db params window candidate e kept in
                  (
                    window,
                    e,
                    passed,
                    ground arith,
                    opened,
                    still_eligible-Memᴰ db params window candidate e kept,
                  )
            ]
      ]
]

eligibility_window-computed :
    (z : Zones) (db : Db) (params : Reservation) (window : WorkingWindow)
    → eligibility_window z db params ≡ some window
    → (branch : Branch) × (find_active_branch params.tenant_id params.branch_id db.branches
        ≡ some branch)
      × (working_window_for_interval z
            (get_or branch.timezone "UTC")
            params.scheduled_start
            params.scheduled_end
          ≡ some window)
unfolding eligibility_window
eligibility_window-computed z db params window h =
    elim (Option-cases (find_active_branch params.tenant_id params.branch_id db.branches)) [
      | inl closed ↦ absurd (ground arith)
      | inr (branch, found) ↦ (branch, found, ground arith)
    ]

-- An employee is assigned only if their profile stands in its table and the eligibility query accepts
-- it, at the window that the interval needs in the time zone of the branch, which is active.
pub reserve_employee-eligible :
    (z : Zones) (db : Db) (params : Reservation) (choice : Option ℕ) (id : ℕ)
    → reserve_employee z db params choice ≡ ok (some id)
    → (window : WorkingWindow) × (e : EmployeeProfile) × (branch : Branch)
      × (employee_eligibility_where db params window e ≡ true)
      × (e.id ≡ id)
      × Memᴰ e db.employee_profiles
      × (find_active_branch params.tenant_id params.branch_id db.branches ≡ some branch)
      × (working_window_for_interval z
            (get_or branch.timezone "UTC")
            params.scheduled_start
            params.scheduled_end
          ≡ some window)
unfolding reserve_employee
reserve_employee-eligible z db params choice id h =
    let assigned : assign z db params choice ≡ ok (some id) = ground arith in
    let (window, e, passed, same, opened, listed) =
      assign-eligible z db params choice id assigned in
    let (branch, found, computed) = eligibility_window-computed z db params window opened in
    (window, e, branch, passed, same, listed, found, computed)

assign-given :
    (z : Zones) (db : Db) (params : Reservation) (wanted : ℕ) (r : Option ℕ)
    → assign z db params (some wanted) ≡ ok r
    → r ≡ some wanted
unfolding assign
assign-given z db params wanted r h = elim (Option-cases (eligibility_window z db params)) [
  | inl closed ↦ absurd (ground arith)
  | inr (window, opened) ↦ elim (Option-cases (still_eligible db params window wanted)) [
    | inl lost ↦ absurd (ground arith)
    | inr (e, kept) ↦
        let (passed, same) = still_eligible-passes db params window wanted e kept in ground arith
  ]
]

-- An employee who is asked for is the one assigned.
pub reserve_employee-given :
    (z : Zones) (db : Db) (params : Reservation) (wanted : ℕ) (r : Option ℕ)
    → reserve_employee z db params (some wanted) ≡ ok r
    → r ≡ some wanted
unfolding reserve_employee
reserve_employee-given z db params wanted r h = assign-given z db params wanted r h
