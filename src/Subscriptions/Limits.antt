-- ===== src/Subscriptions/Limits.antt =====
-- The quota of a tenant: `withResourceLimit` and its check in
-- src/modules/subscriptions/subscriptions.repository.ts, and the refusals of
-- subscription-limits.service.ts. The transaction holds the tenant's row, so the calls that create
-- or restore a tenant's resources run one after the other.
pub mod Laws
use Prim.Native.String.{String}
use wash_flow.Prelude.{
  ℕ, Bool, true, false, not, Option, none, some, List, ◌∷◌, ◌&&◌, ltb, leb, ◌==◌, is_none, find?,
  filter, length, Result, ok, forbidden, throw_if, ◌>>=◌, ◌>>◌, if◌then◌else◌,
}
use wash_flow.Subscriptions.Plans.{PlanTier, ResourceKey, branches, work_posts, users, services}

pub data SubscriptionStatus : Type 0 where
  trialing active past_due paused cancelled : SubscriptionStatus

pub data BillingInterval : Type 0 where
  monthly yearly : BillingInterval

pub record Subscription : Type 0 where
  pub id : ℕ
  pub tenant_id : ℕ
  pub plan_tier : PlanTier
  pub status : SubscriptionStatus
  pub max_users : Option ℕ
  pub max_branches : Option ℕ
  pub max_work_posts : Option ℕ
  pub max_services : Option ℕ
  pub is_trial : Bool
  pub trial_ends_at : Option ℕ
  pub billing_interval : Option BillingInterval
  pub paddle_subscription_id : Option String
  pub paddle_customer_id : Option String
  pub paddle_status : Option String
  pub current_period_start : Option ℕ
  pub current_period_end : Option ℕ
  pub cancelled_at : Option ℕ
  pub cancel_effective_at : Option ℕ

-- A row of `SubscriptionAddon`, whose column `resource` holds a resource key.
pub record SubscriptionAddon : Type 0 where
  pub subscription_id : ℕ
  pub resource : ResourceKey
  pub quantity : ℕ
  pub paddle_price_id : Option String

-- What a quota counts of a user, branch, work post or service.
pub record CountedRow : Type 0 where
  pub id : ℕ
  pub tenant_id : ℕ
  pub deleted_at : Option ℕ

pub record Quotas : Type 0 where
  pub subscriptions : List Subscription
  pub addons : List SubscriptionAddon
  pub user_rows : List CountedRow
  pub branch_rows : List CountedRow
  pub work_post_rows : List CountedRow
  pub service_rows : List CountedRow

unfoldable pub find_by_tenant_id : Quotas → ℕ → Option Subscription
find_by_tenant_id db tenant_id = find? (λ s. s.tenant_id == tenant_id) db.subscriptions

abbrev pub rows_of : Quotas → ResourceKey → List CountedRow
rows_of db users = db.user_rows
rows_of db branches = db.branch_rows
rows_of db work_posts = db.work_post_rows
rows_of db services = db.service_rows

-- `countResourceTx`
unfoldable pub count_resource : Quotas → ℕ → ResourceKey → ℕ
count_resource db tenant_id resource =
    length (filter (λ r. r.tenant_id == tenant_id && is_none r.deleted_at) (rows_of db resource))

unfoldable pub get_max : Subscription → ResourceKey → Option ℕ
get_max s users = s.max_users
get_max s branches = s.max_branches
get_max s work_posts = s.max_work_posts
get_max s services = s.max_services

pub record ResourceLimitResult : Type 0 where
  pub allowed : Bool
  pub current : ℕ
  pub max : Option ℕ
  pub trial_expired : Bool
  pub subscription_inactive : Bool

abbrev pub is_before : Option ℕ → ℕ → Bool
is_before none now = false
is_before (some t) now = ltb t now

unfoldable pub is_trial_expired : Subscription → ℕ → Bool
is_trial_expired s now = s.is_trial && is_before s.trial_ends_at now

-- A cancelled subscription lasts until its cancellation takes effect.
unfoldable pub is_inactive : Subscription → ℕ → Bool
is_inactive s now = elim s.status [
  | cancelled ↦ elim s.cancel_effective_at [ none ↦ true | some t ↦ leb t now ]
  | paused ↦ true
  | past_due ↦ true
  | _ ↦ false
]

abbrev refused : ResourceLimitResult
refused = record {
  allowed = false;
  current = 0;
  max = none;
  trial_expired = false;
  subscription_inactive = false;
}

abbrev pub within : ℕ → Option ℕ → Bool
within count none = true
within count (some max) = ltb count max

check_subscription : Quotas → ℕ → ResourceKey → ℕ → Subscription → ResourceLimitResult
unfolding is_trial_expired is_inactive count_resource get_max
check_subscription db tenant_id resource now s =
    if is_trial_expired s now
    then record refused { trial_expired = true }
    else if is_inactive s now
    then record refused { subscription_inactive = true }
    else record {
      allowed = within (count_resource db tenant_id resource) (get_max s resource);
      current = count_resource db tenant_id resource;
      max = get_max s resource;
      trial_expired = false;
      subscription_inactive = false;
    }

-- `checkLimitTx`
unfoldable pub check_limit : Quotas → ℕ → ResourceKey → ℕ → ResourceLimitResult
unfolding find_by_tenant_id check_subscription
check_limit db tenant_id resource now = elim (find_by_tenant_id db tenant_id) [
  | none ↦ record refused { allowed = true }
  | some s ↦ check_subscription db tenant_id resource now s
]

-- `assertAllowed`
unfoldable pub assert_allowed : ResourceLimitResult → Result (Unit {0})
assert_allowed result = do
  throw_if result.trial_expired (forbidden "Trial has expired")
  throw_if result.subscription_inactive
      (forbidden "Subscription is inactive. Please renew your subscription to continue.")
  throw_if (not result.allowed) (forbidden "Subscription limit reached")

-- `withResourceLimit` of the service: the operation runs only under the quota.
unfoldable pub with_resource_limit {ℓ} :
    {A : Type ℓ}
    → ℕ
    → ResourceKey
    → (Quotas → Result (A × Quotas))
    → ℕ
    → Quotas
    → Result (A × Quotas)
unfolding check_limit assert_allowed
with_resource_limit tenant_id resource operation now db = do
  assert_allowed (check_limit db tenant_id resource now)
  operation db

abbrev pub with_row : ResourceKey → CountedRow → Quotas → Quotas
with_row users row db = record db { user_rows = row ∷ db.user_rows }
with_row branches row db = record db { branch_rows = row ∷ db.branch_rows }
with_row work_posts row db = record db { work_post_rows = row ∷ db.work_post_rows }
with_row services row db = record db { service_rows = row ∷ db.service_rows }

-- The insertion that each `create` of branches, users, work posts and services runs under the
-- quota, as far as the quota counts it.
unfoldable pub create_row : ResourceKey → ℕ → ℕ → Quotas → Result (CountedRow × Quotas)
create_row resource new_id tenant_id db =
    let row : CountedRow = record { id = new_id; tenant_id = tenant_id; deleted_at = none } in
    ok (row, with_row resource row db)
