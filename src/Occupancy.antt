-- ===== src/Occupancy.antt =====
-- When an order holds a resource, a work post or an employee: the where clause of
-- src/modules/scheduling/scheduling.repository.ts (countOverlapping) and of `orders: { none: … }` in
-- src/modules/orders/employee-eligibility.util.ts. `key` is the order's column for the resource.
pub mod Apart
pub mod Updates
use wash_flow.Prelude.{
  ℕ, ◌+◌, ◌-◌, ◌*◌, Bool, true, not, Option, none, some, ◌&&◌, ltb, ◌==◌, ◌==?◌, is_none,
}
use wash_flow.Database.{Order, is_active_status}

abbrev pub work_post : Order → Option ℕ
work_post o = o.work_post_id

abbrev pub employee : Order → Option ℕ
employee o = o.assigned_employee_id

-- `AND id <> ${excludeOrderId}`, if one is given.
abbrev pub not_excluded : Option ℕ → ℕ → Bool
not_excluded none id = true
not_excluded (some excluded) id = not (id == excluded)

unfoldable pub busy : (Order → Option ℕ) → ℕ → ℕ → ℕ → ℕ → Option ℕ → Order → Bool
busy key tenant_id resource start end exclude o =
    o.tenant_id == tenant_id
    && (key o ==? resource
        && (is_active_status o.status
            && (ltb o.scheduled_start end
                && (ltb start o.scheduled_end
                    && (is_none o.deleted_at && not_excluded exclude o.id)))))

abbrev pub buffered_start : ℕ → ℕ → ℕ
buffered_start scheduled_start buffer_minutes = scheduled_start - buffer_minutes * 60000

abbrev pub buffered_end : ℕ → ℕ → ℕ
buffered_end scheduled_end buffer_minutes = scheduled_end + buffer_minutes * 60000

-- An order that still holds its resources.
abbrev pub is_live : Order → Bool
is_live o = is_active_status o.status && is_none o.deleted_at
