-- ===== src/Orders/Employees/Success.antt =====
-- When the reservation of an employee succeeds.
use wash_flow.Prelude.{
  ℕ, ◌≡◌, inl, inr, true, false, not, Option, none, some, arith, ok, any, any-find?, any-filter,
  any-sort_by, is_some, filter, sort_by, List, [], ◌∷◌, Bool, any_witness, sym, ◌∙◌, refl,
  if◌then◌else◌, ◌&&◌, ◌==◌, Bool-cases, is_none, get_or,
}
use wash_flow.Database.{Db, Branch, EmployeeProfile, find_active_branch}
use wash_flow.Common.Zones.{Zones}
use wash_flow.Common.WorkingWindow.{WorkingWindow, working_window_for_interval}
use wash_flow.Orders.Employees.{
  Reservation, employee_eligibility_where, first, first_eligible, still_eligible,
  eligibility_window, assign, reserve_employee, count_configured,
}

-- The first of some rows that all pass a test.
first_passes :
    (p : EmployeeProfile → Bool) (es : List EmployeeProfile)
    → any p es ≡ true
    → any (λ e. not (p e)) es ≡ false
    → (e : EmployeeProfile) × (first es ≡ some e)
      × ((q : EmployeeProfile → Bool) → q e ≡ true → any q es ≡ true)
      × (p e ≡ true)
first_passes p [] h no_other = cc
first_passes p (e ∷ es) h no_other = (e, refl, λ q passes. ground arith, ground arith)

none_fails :
    (p : EmployeeProfile → Bool) (es : List EmployeeProfile)
    → any (λ e. p e && not (p e)) es ≡ false
none_fails p [] = refl
none_fails p (e ∷ es) = ground (arith, none_fails p es)

module _ (db : Db) (params : Reservation) (window : WorkingWindow) where
  abbrev eligible : EmployeeProfile → Bool
  eligible e = employee_eligibility_where db params window e

  abbrev sorted : List EmployeeProfile
  sorted = sort_by (λ e. e.id) (filter eligible db.employee_profiles)

  any-sorted :
      (p : EmployeeProfile → Bool)
      → any p sorted ≡ any (λ e. eligible e && p e) db.employee_profiles
  any-sorted p =
      any-sort_by p (λ e. e.id) (filter eligible db.employee_profiles)
      ∙ any-filter p eligible db.employee_profiles

  -- The first row that the eligibility query returns is still eligible when it is read again.
  first_eligible-found :
      any eligible db.employee_profiles ≡ true
      → (id : ℕ) × (first_eligible db params window ≡ some id)
        × (any (λ e. eligible e && e.id == id) db.employee_profiles ≡ true)
  unfolding first_eligible
  first_eligible-found h =
      let (e, passes, one) = any_witness eligible db.employee_profiles h in
      let (f, is_first, in_sorted, _) =
        first_passes eligible sorted
          (any-sorted eligible ∙ one (λ e. eligible e && eligible e) (ground arith))
          (any-sorted (λ e. not (eligible e)) ∙ none_fails eligible db.employee_profiles) in
      (
        f.id,
        ground arith,
        sym (any-sorted (λ e. e.id == f.id)) ∙ in_sorted (λ e. e.id == f.id) (ground arith),
      )

module _ (z : Zones) (db : Db) (params : Reservation) (window : WorkingWindow) where
  assign-chosen :
      (choice : Option ℕ) (id : ℕ)
      → eligibility_window z db params ≡ some window
      → (if is_some choice then choice else first_eligible db params window) ≡ some id
      → any (λ e. eligible db params window e && e.id == id) db.employee_profiles ≡ true
      → (r : Option ℕ) × (assign z db params choice ≡ ok r)
  unfolding assign still_eligible
  assign-chosen choice id opened chosen there =
      let (e, found) =
        any-find? (λ e. eligible db params window e && e.id == id) db.employee_profiles there in
      (some e.id, ground arith)

  -- An employee is eligible, the one asked for if there is one.
  abbrev pub CanAssign : Option ℕ → Type 0
  CanAssign none = any (eligible db params window) db.employee_profiles ≡ true
  CanAssign (some id) =
      any (λ e. eligible db params window e && e.id == id) db.employee_profiles ≡ true

  assign-succeeds :
      (choice : Option ℕ)
      → eligibility_window z db params ≡ some window
      → CanAssign choice
      → (r : Option ℕ) × (assign z db params choice ≡ ok r)
  assign-succeeds none opened can =
      let (id, is_first, there) = first_eligible-found db params window can in
      assign-chosen none id opened is_first there
  assign-succeeds (some id) opened can = assign-chosen (some id) id opened refl can

  pub reserve_employee-succeeds :
      (branch : Branch) (choice : Option ℕ)
      → find_active_branch params.tenant_id params.branch_id db.branches ≡ some branch
      → working_window_for_interval z
          (get_or branch.timezone "UTC")
          params.scheduled_start
          params.scheduled_end
        ≡ some window
      → CanAssign choice
      → (r : Option ℕ) × (reserve_employee z db params choice ≡ ok r)
  unfolding reserve_employee eligibility_window
  reserve_employee-succeeds branch choice active window_of can =
      let opened : eligibility_window z db params ≡ some window = ground arith in
      let (r, assigned) = assign-succeeds choice opened can in
      elim (Bool-cases (is_none choice && count_configured db params == 0)) [
        | inl nobody ↦ (none, ground arith)
        | inr somebody ↦ (r, ground arith)
      ]

pub reserve_employee-nobody :
    (z : Zones) (db : Db) (params : Reservation)
    → count_configured db params ≡ 0
    → reserve_employee z db params none ≡ ok none
unfolding reserve_employee
reserve_employee-nobody z db params h = ground arith
