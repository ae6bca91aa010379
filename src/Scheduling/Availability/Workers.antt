-- ===== src/Scheduling/Availability/Workers.antt =====
-- A slot with an employee left for it, and the reservation of one.
use wash_flow.Prelude.{
  ℕ, ◌≡◌, ◌+◌, ◌≤◌, ◌<◌, true, false, Bool, Option, none, some, List, arith, ok, any, any_witness,
  any-filter, any-filter_fails, any-nonempty, length-map, contains, contains-map, filter, length,
  map, sym, subst, ◌∙◌, ◌&&◌, ◌==◌, ◌==?◌, inl, inr, Option-cases, Bool-cases, is_none, ltb, get_or,
}
use wash_flow.Database.{Db, Branch, Order, EmployeeProfile, is_active_status, find_active_branch}
use wash_flow.Occupancy.{busy, employee, buffered_start, buffered_end, not_excluded}
use wash_flow.Common.Zones.{Zones}
use wash_flow.Common.WorkingWindow.{WorkingWindow, working_window_for_interval}
use wash_flow.Orders.Employees.{
  Reservation, employee_eligibility_where, has_order, reserve_employee, count_configured,
}
use wash_flow.Orders.Employees.Success.{
  CanAssign, reserve_employee-succeeds, reserve_employee-nobody,
}
use wash_flow.Scheduling.Queries.{
  CheckAvailabilityParams, is_among, find_active_orders, is_candidate, find_candidates,
  count_profiles_for_branch,
}
use wash_flow.Scheduling.Availability.{
  Day, conflicts, is_free, employee_orders, available_employees, effective_capacity,
}
use wash_flow.Scheduling.Availability.Posts.{reservation_from, is_among-key}

module _ (z : Zones) (db : Db) (params : CheckAvailabilityParams) (d : Day) (cursor : ℕ) where
  abbrev pub IsWithinHours : Type 0
  IsWithinHours = (d.start ≤ cursor) × (cursor + d.step ≤ d.end)

  abbrev res : Reservation
  res = reservation_from params d cursor

  abbrev candidate_ids : List ℕ
  candidate_ids = map (λ e. e.id) (find_candidates db params)

  abbrev fetched : Order → Bool
  fetched o =
      o.tenant_id == params.tenant_id
      && (is_among o.assigned_employee_id candidate_ids
          && (not_excluded params.exclude_order_id o.id
              && (is_active_status o.status
                  && (ltb o.scheduled_start (buffered_end d.end d.buffer_minutes)
                      && (ltb (buffered_start d.start d.buffer_minutes) o.scheduled_end
                          && is_none o.deleted_at)))))

  abbrev conflicting : ℕ → Order → Bool
  conflicting id o =
      o.assigned_employee_id ==? id
      && conflicts (buffered_start cursor d.buffer_minutes)
          (buffered_end (cursor + d.step) d.buffer_minutes) o

  abbrev holding : ℕ → Order → Bool
  holding id o =
      busy employee params.tenant_id id (buffered_start cursor d.buffer_minutes)
        (buffered_end (cursor + d.step) d.buffer_minutes) params.exclude_order_id o

  holding-fetched :
      (id : ℕ)
      → IsWithinHours
      → contains candidate_ids id ≡ true
      → (o : Order) → holding id o ≡ true
      → (fetched o ≡ true) × (conflicting id o ≡ true)
  unfolding busy
  holding-fetched id (opens, closes) there o h =
      let among = is_among-key o.assigned_employee_id id candidate_ids (ground arith) there in
      (ground arith, ground arith)

  has_order-conflict :
      (id : ℕ)
      → IsWithinHours
      → contains candidate_ids id ≡ true
      → any (conflicting id) (employee_orders z db params d) ≡ false
      → has_order db.orders res id ≡ false
  unfolding has_order find_active_orders
  has_order-conflict id within there no_conflict =
      any-filter_fails fetched (conflicting id) (holding id) db.orders
        (holding-fetched id within there) no_conflict

  free_candidate-eligible :
      (window : WorkingWindow) (e : EmployeeProfile)
      → IsWithinHours
      → contains candidate_ids e.id ≡ true
      → is_candidate db params e ≡ true
      → is_free
          (some window)
          (employee_orders z db params d)
          (buffered_start cursor d.buffer_minutes)
          (buffered_end (cursor + d.step) d.buffer_minutes)
          e
        ≡ true
      → employee_eligibility_where db res window e ≡ true
  unfolding employee_eligibility_where
  free_candidate-eligible window e within there candidate free =
      let no_order = has_order-conflict e.id within there (ground arith) in ground arith

  abbrev window_at : Option WorkingWindow
  window_at = working_window_for_interval z d.timezone cursor (cursor + d.step)

  abbrev free : EmployeeProfile → Bool
  free e =
      is_free window_at (employee_orders z db params d) (buffered_start cursor d.buffer_minutes)
        (buffered_end (cursor + d.step) d.buffer_minutes) e

  -- A candidate who is free and passes `q` is eligible at the slot's window.
  free_candidate-witness :
      (q : EmployeeProfile → Bool)
      → IsWithinHours
      → any (λ e. free e && q e) (find_candidates db params) ≡ true
      → (window : WorkingWindow) × (window_at ≡ some window)
        × (any (λ e. employee_eligibility_where db res window e && q e) db.employee_profiles ≡ true)
  unfolding find_candidates
  free_candidate-witness q within h =
      let (e, passes, one) =
        any_witness (λ e. is_candidate db params e && (free e && q e)) db.employee_profiles
          (sym (any-filter (λ e. free e && q e) (is_candidate db params) db.employee_profiles)
            ∙ h) in
      let listed =
        contains-map (λ e. e.id) e.id (find_candidates db params)
        ∙ any-filter (λ x. x.id == e.id) (is_candidate db params) db.employee_profiles
        ∙ one (λ x. is_candidate db params x && x.id == e.id) (ground arith) in
      elim (Option-cases window_at) [
        | inl closed ↦ absurd (ground arith)
        | inr (window, opened) ↦
            let eligible =
              free_candidate-eligible window e within listed (ground arith) (ground arith) in
            (
              window,
              opened,
              one (λ e. employee_eligibility_where db res window e && q e) (ground arith),
            )
      ]

  available_employees-some :
      IsWithinHours
      → 0 < length (available_employees z db params d cursor)
      → (window : WorkingWindow) × (window_at ≡ some window) × CanAssign z db res window none
  unfolding available_employees
  available_employees-some within h =
      let anyone =
        any-nonempty free (find_candidates db params) (
          subst (λ n. 0 < n) (length-map (λ e. e.id) (filter free (find_candidates db params)))
            h) in
      let (e, passes, one) = any_witness free (find_candidates db params) anyone in
      let (window, opened, some_eligible) =
        free_candidate-witness (λ _. true) within (one (λ x. free x && true) (ground arith)) in
      let (found, eligible, one_eligible) =
        any_witness (λ x. employee_eligibility_where db res window x && true) db.employee_profiles
          some_eligible in
      (window, opened, one_eligible (employee_eligibility_where db res window) (ground arith))

  available_employees-given :
      (id : ℕ)
      → IsWithinHours
      → contains (available_employees z db params d cursor) id ≡ true
      → (window : WorkingWindow) × (window_at ≡ some window) × CanAssign z db res window (some id)
  unfolding available_employees
  available_employees-given id within h =
      free_candidate-witness (λ e. e.id == id) within
        (sym (any-filter (λ e. e.id == id) free (find_candidates db params))
          ∙ sym (contains-map (λ e. e.id) id (filter free (find_candidates db params)))
          ∙ h)

  abbrev pub IsLeft : Option ℕ → ℕ → Type 0
  IsLeft choice posts =
      0
      < effective_capacity (count_profiles_for_branch db params.tenant_id params.branch_id) choice
          posts (available_employees z db params d cursor)

  module _ (branch : Branch)
      (active : find_active_branch params.tenant_id params.branch_id db.branches ≡ some branch)
      (zone : d.timezone ≡ get_or branch.timezone "UTC") where
    reserve_opened :
        (choice : Option ℕ)
        → ((window : WorkingWindow) × (window_at ≡ some window) × CanAssign z db res window choice)
        → (r : Option ℕ) × (reserve_employee z db res choice ≡ ok r)
    reserve_opened choice (window, opened, can) =
        reserve_employee-succeeds z db res window branch choice active
          (subst (λ t. working_window_for_interval z t cursor (cursor + d.step) ≡ some window) zone
            opened)
          can

    -- A slot within the hours that has capacity left has an employee to reserve, if it needs one.
    pub effective_capacity-reserves :
        (choice : Option ℕ) (posts : ℕ)
        → IsWithinHours
        → 0 < posts
        → IsLeft choice posts
        → (r : Option ℕ) × (reserve_employee z db res choice ≡ ok r)
    unfolding effective_capacity count_profiles_for_branch count_configured
    effective_capacity-reserves (some id) posts within any_post left =
        reserve_opened (some id) (available_employees-given id within (ground arith))
    effective_capacity-reserves none posts within any_post left =
        elim (Bool-cases (ltb 0 (count_profiles_for_branch db params.tenant_id params.branch_id))) [
          | inl staffed ↦ reserve_opened none (available_employees-some within (ground arith))
          | inr unstaffed ↦ (none, reserve_employee-nobody z db res (ground arith))
        ]
