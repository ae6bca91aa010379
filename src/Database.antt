-- ===== src/Database.antt =====
-- The rows that the services read and write (prisma/schema.prisma), and the where clauses that
-- several of them share. A table is a list of rows in no particular order, a new row first.
-- Identifiers are only compared, so they are numbers; an instant is a number of milliseconds since
-- the earliest one that a Date holds; a time of day is its minutes since midnight; a calendar day is
-- a number of days since 1970-01-01; money is in cents.
use Prim.Native.String.{String}
use wash_flow.Prelude.{ℕ, Bool, true, false, Option, List, ◌&&◌, ◌==◌, is_none, find?, any}

pub data OrderStatus : Type 0 where
  booked booked_pending_confirmation in_progress completed cancelled no_show : OrderStatus

pub data OrderSource : Type 0 where
  internal web widget api : OrderSource

pub data PaymentStatus : Type 0 where
  pending paid failed refunded : PaymentStatus

pub record OrderLine : Type 0 where
  pub service_id : ℕ
  pub price : ℕ
  pub quantity : ℕ

pub record Order : Type 0 where
  pub id : ℕ
  pub tenant_id : ℕ
  pub branch_id : ℕ
  pub client_id : ℕ
  pub vehicle_id : ℕ
  pub work_post_id : Option ℕ
  pub assigned_employee_id : Option ℕ
  pub created_by_id : Option ℕ
  pub status : OrderStatus
  pub source : OrderSource
  pub scheduled_start : ℕ
  pub scheduled_end : ℕ
  pub total_price : ℕ
  pub notes : Option String
  pub cancellation_reason : Option String
  pub deleted_at : Option ℕ
  pub services : List OrderLine

pub record WorkPost : Type 0 where
  pub id : ℕ
  pub tenant_id : ℕ
  pub branch_id : ℕ
  pub is_active : Bool
  pub deleted_at : Option ℕ

pub record Branch : Type 0 where
  pub id : ℕ
  pub tenant_id : ℕ
  pub is_active : Bool
  pub deleted_at : Option ℕ
  pub timezone : Option String

pub record User : Type 0 where
  pub tenant_id : ℕ
  pub is_active : Bool
  pub deleted_at : Option ℕ

-- An employee profile with the user that it belongs to.
pub record EmployeeProfile : Type 0 where
  pub id : ℕ
  pub tenant_id : ℕ
  pub branch_id : ℕ
  pub is_worker : Bool
  pub active : Bool
  pub work_start_time : Option ℕ
  pub work_end_time : Option ℕ
  pub deleted_at : Option ℕ
  pub user : User

pub record Client : Type 0 where
  pub id : ℕ
  pub tenant_id : ℕ
  pub phone : Option String
  pub deleted_at : Option ℕ

pub record Vehicle : Type 0 where
  pub id : ℕ
  pub tenant_id : ℕ
  pub client_id : ℕ
  pub license_plate : Option String
  pub deleted_at : Option ℕ

pub record Service : Type 0 where
  pub id : ℕ
  pub tenant_id : ℕ
  pub is_active : Bool
  pub duration_min : ℕ
  pub price : ℕ
  pub deleted_at : Option ℕ

pub record BookingSettings : Type 0 where
  pub tenant_id : ℕ
  pub branch_id : Option ℕ
  pub slot_duration_minutes : ℕ
  pub buffer_time_minutes : ℕ
  pub max_advance_booking_days : ℕ
  pub allow_online_booking : Bool
  pub working_hours_start : ℕ
  pub working_hours_end : ℕ
  pub working_days : List ℕ

pub record Payment : Type 0 where
  pub id : ℕ
  pub tenant_id : ℕ
  pub order_id : ℕ
  pub amount : ℕ
  pub method : String
  pub status : PaymentStatus
  pub reference : Option String

-- What an idempotency key's `responseBody` holds: the envelope of IdempotencyService, with the
-- resource once it is saved, or some other JSON value, by its text.
pub data ResponseBody : Type 0 where
  envelope :
      (kind : String) → (actor_id : Option ℕ) → (fingerprint : String) → Option ℕ → ResponseBody
  other_json : String → ResponseBody

pub record IdempotencyKey : Type 0 where
  pub key : String
  pub tenant_id : ℕ
  pub method : String
  pub path : String
  pub status_code : ℕ
  pub response_body : ResponseBody
  pub expires_at : ℕ

pub record Db : Type 0 where
  pub orders : List Order
  pub work_posts : List WorkPost
  pub branches : List Branch
  pub employee_profiles : List EmployeeProfile
  pub clients : List Client
  pub vehicles : List Vehicle
  pub services : List Service
  pub booking_settings : List BookingSettings
  pub payments : List Payment
  pub idempotency_keys : List IdempotencyKey

-- `status NOT IN ('CANCELLED', 'NO_SHOW', 'COMPLETED')`
abbrev pub is_active_status : OrderStatus → Bool
is_active_status cancelled = false
is_active_status no_show = false
is_active_status completed = false
is_active_status _ = true

-- `branch.findFirst({ where: { id, tenantId, isActive: true, deletedAt: null } })`
unfoldable pub find_active_branch : ℕ → ℕ → List Branch → Option Branch
find_active_branch tenant_id id branches =
    find? (λ b. b.id == id && (b.tenant_id == tenant_id && (b.is_active && is_none b.deleted_at)))
      branches

-- The relation filter `branch: { id, tenantId, isActive: true, deletedAt: null }` of a profile.
abbrev pub belongs_to_branch : List Branch → ℕ → ℕ → EmployeeProfile → Bool
belongs_to_branch branches tenant_id branch_id e =
    any
      (λ b.
        b.id == e.branch_id
        && (b.id == branch_id
            && (b.tenant_id == tenant_id && (b.is_active && is_none b.deleted_at))))
      branches
