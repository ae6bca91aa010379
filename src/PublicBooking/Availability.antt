-- ===== src/PublicBooking/Availability.antt =====
-- The free slots shown to a visitor of src/modules/public-booking/public-booking.service.ts:
-- `checkAvailability`, `checkAvailabilityByTenantId` and `checkAvailabilityInternal`.
use Prim.Native.String.{String}
use wash_flow.Prelude.{
  ℕ, Option, none, some, List, ◌&&◌, ◌==◌, find?, Result, not_found, or_throw, ◌>>=◌, if◌then◌else◌,
}
use wash_flow.Database.{Db, Branch}
use wash_flow.Common.Zones.{Zones}
use wash_flow.Scheduling.Availability.{TimeSlot, check_availability}
use wash_flow.PublicBooking.{Tenant, resolve_tenant, resolve_tenant_by_id}

pub record CheckAvailabilityDto : Type 0 where
  pub branch_id : ℕ
  pub work_post_id : Option ℕ
  pub date : ℕ
  pub duration_minutes : Option ℕ

-- `dto.durationMinutes || 30`
abbrev pub minutes_asked : Option ℕ → ℕ
minutes_asked none = 30
minutes_asked (some n) = if n == 0 then 30 else n

abbrev pub branch_of_tenant : Db → ℕ → ℕ → Option Branch
branch_of_tenant db tenant_id branch_id =
    find? (λ b. b.id == branch_id && b.tenant_id == tenant_id) db.branches

module _ (z : Zones) where
  unfoldable pub check_availability_internal :
      ℕ → CheckAvailabilityDto → ℕ → Db → Result (List TimeSlot)
  unfolding check_availability
  check_availability_internal tenant_id dto now db = do
    branch ← or_throw (branch_of_tenant db tenant_id dto.branch_id) (not_found "Branch not found")
    check_availability z
        (record {
          tenant_id = tenant_id;
          branch_id = dto.branch_id;
          work_post_id = dto.work_post_id;
          assigned_employee_id = none;
          day = dto.date;
          duration_minutes = minutes_asked dto.duration_minutes;
          exclude_order_id = none;
        })
        now db

  unfoldable pub check_availability_by_slug :
      List Tenant → String → CheckAvailabilityDto → ℕ → Db → Result (List TimeSlot)
  unfolding resolve_tenant check_availability_internal
  check_availability_by_slug tenants slug dto now db = do
    tenant ← resolve_tenant tenants slug
    check_availability_internal tenant.id dto now db

  unfoldable pub check_availability_by_tenant_id :
      List Tenant → ℕ → CheckAvailabilityDto → ℕ → Db → Result (List TimeSlot)
  unfolding resolve_tenant_by_id check_availability_internal
  check_availability_by_tenant_id tenants tenant_id dto now db = do
    tenant ← resolve_tenant_by_id tenants tenant_id
    check_availability_internal tenant.id dto now db
