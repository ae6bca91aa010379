-- ===== src/Subscriptions/Plans.antt =====
-- src/modules/subscriptions/plan.constants.ts: the limits of the plans and how add-ons raise them.
-- A quantity is not negative by its type, so `calculateEffectiveLimit` has nothing to refuse.
pub mod Laws
use wash_flow.Prelude.{ℕ, ◌+◌, ◌*◌, Bool, Option, none, some, ltb}

pub data PlanTier : Type 0 where
  trial starter business enterprise : PlanTier

pub data ResourceKey : Type 0 where
  branches work_posts users services : ResourceKey

pub record PlanLimits : Type 0 where
  pub branch_limit : Option ℕ
  pub work_post_limit : Option ℕ
  pub user_limit : Option ℕ
  pub service_limit : Option ℕ

-- PLAN_LIMITS
unfoldable pub plan_limits : PlanTier → PlanLimits
plan_limits trial = record {
  branch_limit = some 3;
  work_post_limit = some 10;
  user_limit = some 15;
  service_limit = some 20;
}
plan_limits starter = record {
  branch_limit = some 1;
  work_post_limit = some 5;
  user_limit = some 5;
  service_limit = some 15;
}
plan_limits business = record {
  branch_limit = some 5;
  work_post_limit = some 25;
  user_limit = some 25;
  service_limit = some 50;
}
plan_limits enterprise = record {
  branch_limit = some 25;
  work_post_limit = some 100;
  user_limit = none;
  service_limit = none;
}

abbrev pub limit_of : PlanLimits → ResourceKey → Option ℕ
limit_of limits branches = limits.branch_limit
limit_of limits work_posts = limits.work_post_limit
limit_of limits users = limits.user_limit
limit_of limits services = limits.service_limit

-- ADDON_UNIT_SIZE
unfoldable pub addon_unit_size : ResourceKey → ℕ
addon_unit_size branches = 1
addon_unit_size work_posts = 5
addon_unit_size users = 5
addon_unit_size services = 10

-- PLAN_ORDER
unfoldable pub plan_order : PlanTier → ℕ
plan_order trial = 0
plan_order starter = 1
plan_order business = 2
plan_order enterprise = 3

unfoldable pub is_upgrade : PlanTier → PlanTier → Bool
unfolding plan_order
is_upgrade old new = ltb (plan_order old) (plan_order new)

unfoldable pub is_downgrade : PlanTier → PlanTier → Bool
unfolding plan_order
is_downgrade old new = ltb (plan_order new) (plan_order old)

-- `null` is unlimited.
unfoldable pub calculate_effective_limit : PlanTier → ResourceKey → ℕ → Option ℕ
unfolding plan_limits addon_unit_size
calculate_effective_limit tier resource addon_quantity =
    elim (limit_of (plan_limits tier) resource) [
      | none ↦ none
      | some base_limit ↦ some (base_limit + addon_quantity * addon_unit_size resource)
    ]
