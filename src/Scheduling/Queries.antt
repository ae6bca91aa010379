-- ===== src/Scheduling/Queries.antt =====
-- The rows that `checkAvailability` of src/modules/scheduling/scheduling.service.ts reads: its own
-- queries, and those of scheduling.repository.ts and of src/modules/workforce/workforce.repository.ts.
use wash_flow.Prelude.{
  ℕ, Bool, true, false, Option, none, some, List, map, ◌&&◌, ltb, ◌==◌, is_none, is_some, find?,
  filter, length, contains,
}
use wash_flow.Database.{
  Db, Order, WorkPost, Branch, EmployeeProfile, is_active_status, belongs_to_branch,
}
use wash_flow.Occupancy.{not_excluded}

pub record CheckAvailabilityParams : Type 0 where
  pub tenant_id : ℕ
  pub branch_id : ℕ
  pub work_post_id : Option ℕ
  pub assigned_employee_id : Option ℕ
  pub day : ℕ
  pub duration_minutes : ℕ
  pub exclude_order_id : Option ℕ

-- `tenantDb.branch.findUnique`
unfoldable pub find_branch : Db → ℕ → ℕ → Option Branch
find_branch db tenant_id id =
    find? (λ b. b.id == id && (b.tenant_id == tenant_id && is_none b.deleted_at)) db.branches

abbrev pub is_wanted : Option ℕ → ℕ → Bool
is_wanted none id = true
is_wanted (some wanted) id = id == wanted

-- `tenantDb.workPost.findMany`
abbrev pub is_offered_post : CheckAvailabilityParams → WorkPost → Bool
is_offered_post params wp =
    wp.tenant_id == params.tenant_id
    && (wp.branch_id == params.branch_id
        && (wp.is_active && (is_none wp.deleted_at && is_wanted params.work_post_id wp.id)))

unfoldable pub work_post_ids : Db → CheckAvailabilityParams → List ℕ
work_post_ids db params = map (λ wp. wp.id) (filter (is_offered_post params) db.work_posts)

abbrev pub is_among : Option ℕ → List ℕ → Bool
is_among none ids = false
is_among (some id) ids = contains ids id

-- `findOrdersForWorkPostsInRange`
unfoldable pub find_orders_for_work_posts : List Order → ℕ → List ℕ → ℕ → ℕ → Option ℕ → List Order
find_orders_for_work_posts orders tenant_id ids start end exclude =
    filter
      (λ o.
        o.tenant_id == tenant_id
        && (is_none o.deleted_at
            && (not_excluded exclude o.id
                && (is_among o.work_post_id ids
                    && (is_active_status o.status
                        && (ltb o.scheduled_start end && ltb start o.scheduled_end))))))
      orders

-- `countProfilesForBranch`
unfoldable pub count_profiles_for_branch : Db → ℕ → ℕ → ℕ
count_profiles_for_branch db tenant_id branch_id = length (
    filter
      (λ e.
        e.tenant_id == tenant_id
        && (e.branch_id == branch_id
            && (e.active && (is_none e.deleted_at && is_some e.work_start_time))))
      db.employee_profiles)

-- The candidates' query.
abbrev pub is_candidate : Db → CheckAvailabilityParams → EmployeeProfile → Bool
is_candidate db params e =
    e.tenant_id == params.tenant_id
    && (is_none e.deleted_at
        && (e.branch_id == params.branch_id
            && (e.is_worker
                && (e.active
                    && (is_some e.work_start_time
                        && (is_some e.work_end_time
                            && (e.user.tenant_id == params.tenant_id
                                && (e.user.is_active
                                    && (is_none e.user.deleted_at
                                        && belongs_to_branch db.branches params.tenant_id
                                            params.branch_id e)))))))))

unfoldable pub find_candidates : Db → CheckAvailabilityParams → List EmployeeProfile
find_candidates db params = filter (is_candidate db params) db.employee_profiles

-- The active orders of the candidates on the day, with the buffer around it.
unfoldable pub find_active_orders : Db → CheckAvailabilityParams → List ℕ → ℕ → ℕ → List Order
find_active_orders db params candidate_ids start end =
    filter
      (λ o.
        o.tenant_id == params.tenant_id
        && (is_among o.assigned_employee_id candidate_ids
            && (not_excluded params.exclude_order_id o.id
                && (is_active_status o.status
                    && (ltb o.scheduled_start end
                        && (ltb start o.scheduled_end && is_none o.deleted_at))))))
      db.orders
