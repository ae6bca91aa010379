-- ===== src/Subscriptions/Upsert.antt =====
-- `upsert` and `delete` of src/modules/subscriptions/subscriptions.service.ts: the limits that an
-- administrator sets. The identifier of a row that `upsert` creates is the argument `new_id`; its
-- other columns have the defaults of prisma/schema.prisma.
pub mod Laws
use wash_flow.Prelude.{
  ℕ, false, Option, none, some, List, [], ◌∷◌, not, ltb, ◌==◌, filter, Result, ok, err, conflict,
  not_found, or_throw, ◌>>=◌,
}
use wash_flow.Subscriptions.Plans.{trial, ResourceKey, branches, work_posts, users, services}
use wash_flow.Subscriptions.Limits.{
  trialing, Subscription, Quotas, find_by_tenant_id, count_resource,
}
use wash_flow.Subscriptions.Service.{with_limits, update_subscription}

pub record UpsertSubscriptionDto : Type 0 where
  pub dto_max_users : ℕ
  pub dto_max_branches : ℕ
  pub dto_max_work_posts : ℕ
  pub dto_max_services : ℕ

unfoldable pub dto_limit : UpsertSubscriptionDto → ResourceKey → ℕ
dto_limit dto users = dto.dto_max_users
dto_limit dto branches = dto.dto_max_branches
dto_limit dto work_posts = dto.dto_max_work_posts
dto_limit dto services = dto.dto_max_services

unfoldable pub usage_violations : Quotas → ℕ → UpsertSubscriptionDto → List ResourceKey
unfolding dto_limit
usage_violations db tenant_id dto =
    filter (λ r. ltb (dto_limit dto r) (count_resource db tenant_id r))
      (users ∷ branches ∷ work_posts ∷ services ∷ [])

abbrev new_subscription : ℕ → ℕ → Subscription
new_subscription new_id tenant_id = record {
  id = new_id;
  tenant_id = tenant_id;
  plan_tier = trial;
  status = trialing;
  max_users = none;
  max_branches = none;
  max_work_posts = none;
  max_services = none;
  is_trial = false;
  trial_ends_at = none;
  billing_interval = none;
  paddle_subscription_id = none;
  paddle_customer_id = none;
  paddle_status = none;
  current_period_start = none;
  current_period_end = none;
  cancelled_at = none;
  cancel_effective_at = none;
}

abbrev pub dto_limits : UpsertSubscriptionDto → ResourceKey → Option ℕ
dto_limits dto r = some (dto_limit dto r)

-- `subscriptionsRepo.upsert`
unfoldable pub upsert_row : ℕ → ℕ → UpsertSubscriptionDto → Quotas → Quotas
unfolding update_subscription dto_limit
upsert_row new_id tenant_id dto db = elim (find_by_tenant_id db tenant_id) [
  | some s ↦ update_subscription tenant_id (with_limits (dto_limits dto)) db
  | none ↦ record db {
    subscriptions =
        with_limits (dto_limits dto) (new_subscription new_id tenant_id) ∷ db.subscriptions;
  }
]

unfoldable pub upsert_subscription : ℕ → ℕ → UpsertSubscriptionDto → Quotas → Result Quotas
unfolding usage_violations upsert_row
upsert_subscription new_id tenant_id dto db = elim (usage_violations db tenant_id dto) [
  | [] ↦ ok (upsert_row new_id tenant_id dto db)
  | _ ↦ err (conflict "Cannot set limits below current usage")
]

unfoldable pub delete_subscription : ℕ → Quotas → Result Quotas
delete_subscription tenant_id db = do
  s ← or_throw (find_by_tenant_id db tenant_id) (not_found "Subscription not found")
  ok (record db { subscriptions = filter (λ x. not (x.tenant_id == tenant_id)) db.subscriptions })
