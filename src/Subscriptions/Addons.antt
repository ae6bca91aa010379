-- ===== src/Subscriptions/Addons.antt =====
-- The add-ons of a subscription: upsertAddon and deleteAddon of
-- src/modules/subscriptions/subscriptions.repository.ts, and the operations of
-- subscriptions.service.ts that change a plan or an add-on, changePlan and manageAddon.
pub mod Laws
pub mod Rows
mod Tests
use Prim.Native.String.{String}
use wash_flow.Prelude.{
  ℕ, Bool, not, true, false, Option, none, some, List, [], ◌∷◌, ◌++◌, ◌&&◌, ltb, ◌==◌, any, filter,
  update_where, Result, ok, err, not_found, bad_request, if◌then◌else◌,
}
use wash_flow.Subscriptions.Plans.{PlanTier, trial, ResourceKey, is_downgrade}
use wash_flow.Subscriptions.Limits.{
  BillingInterval, SubscriptionAddon, Subscription, Quotas, find_by_tenant_id,
}
use wash_flow.Subscriptions.Service.{
  same_resource, addons_of, recalculate_effective_limits, update_subscription, validate_downgrade,
  PaddleOutcome, with_paddle_circuit_breaker, Raised, http, Finished, raised,
  has_paddle_subscription, is_cancelled, as_reactivated, finish,
}
use wash_flow.Subscriptions.Paddle.{PaddleConfig, build_all_paddle_items, get_addon_price_id}

abbrev pub is_addon : ℕ → ResourceKey → SubscriptionAddon → Bool
is_addon subscription_id resource a =
    a.subscription_id == subscription_id && same_resource a.resource resource

unfoldable pub upsert_addon : ℕ → ResourceKey → ℕ → Option String → Quotas → Quotas
upsert_addon subscription_id resource quantity paddle_price_id db =
    if any (is_addon subscription_id resource) db.addons
    then record db {
      addons =
          update_where (is_addon subscription_id resource)
            (λ a. record a { quantity = quantity; paddle_price_id = paddle_price_id }) db.addons;
    }
    else record db {
      addons =
          record {
            subscription_id = subscription_id;
            resource = resource;
            quantity = quantity;
            paddle_price_id = paddle_price_id;
          }
          ∷ db.addons;
    }

unfoldable pub delete_addon : ℕ → ResourceKey → Quotas → Quotas
delete_addon subscription_id resource db = record db {
  addons = filter (λ a. not (is_addon subscription_id resource a)) db.addons;
}

pub record ChangePlanDto : Type 0 where
  pub plan_tier : PlanTier
  pub billing_interval : BillingInterval

abbrev checked_downgrade : Quotas → ℕ → PlanTier → Subscription → Result (Unit {0})
checked_downgrade db tenant_id new_tier s =
    if is_downgrade s.plan_tier new_tier
    then validate_downgrade db tenant_id new_tier (addons_of db s)
    else ok tt

abbrev is_trial_tier : PlanTier → Bool
is_trial_tier trial = true
is_trial_tier _ = false

abbrev clear_cancellation : ℕ → Subscription → Quotas → Quotas
clear_cancellation tenant_id s db =
    if is_cancelled s then update_subscription tenant_id as_reactivated db else db

module _ (config : PaddleConfig) where
  -- Once the checks are passed, Paddle is asked for the items; the new tier comes by a webhook.
  unfoldable pub change_plan : ℕ → ChangePlanDto → PaddleOutcome → Quotas → Finished
  unfolding with_paddle_circuit_breaker
  change_plan tenant_id dto outcome db = elim (find_by_tenant_id db tenant_id) [
    | none ↦ raised (http (not_found "Subscription not found"))
    | some s ↦
        if not (has_paddle_subscription s)
        then raised
            (http (bad_request "No active Paddle subscription. Use checkout to subscribe first."))
        else if is_trial_tier s.plan_tier
        then raised
            (http (bad_request "Cannot change plan on a trial. Use checkout to subscribe first."))
        else elim (checked_downgrade db tenant_id dto.plan_tier s) [
          | err e ↦ raised (http e)
          | ok _ ↦
              elim (build_all_paddle_items config dto.plan_tier (some dto.billing_interval)
                (addons_of db s)) [
                  | err e ↦ raised (http e)
                  | ok items ↦
                      finish (with_paddle_circuit_breaker outcome)
                        (clear_cancellation tenant_id s db)
                ]
        ]
  ]

pub record ManageAddonDto : Type 0 where
  pub resource : ResourceKey
  pub quantity : ℕ

-- `speculativeAddons`
abbrev pub speculative_addons :
    Subscription → ManageAddonDto → List SubscriptionAddon → List SubscriptionAddon
speculative_addons s dto addons =
    filter (λ a. not (same_resource a.resource dto.resource)) addons
    ++ (if ltb 0 dto.quantity
        then record {
          subscription_id = s.id;
          resource = dto.resource;
          quantity = dto.quantity;
          paddle_price_id = none;
        }
          ∷ []
        else [])

abbrev write_addon : Subscription → ManageAddonDto → String → Quotas → Quotas
write_addon s dto price db =
    if dto.quantity == 0
    then delete_addon s.id dto.resource db
    else upsert_addon s.id dto.resource dto.quantity (some price) db

module _ (config : PaddleConfig) where
  -- What the call of Paddle throws, if the subscription is linked to one.
  abbrev asked_paddle : Quotas → Subscription → ManageAddonDto → PaddleOutcome → Option Raised
  asked_paddle db s dto outcome =
      if has_paddle_subscription s
      then elim (build_all_paddle_items config s.plan_tier s.billing_interval
          (speculative_addons s dto (addons_of db s))) [
            | err e ↦ some (http e)
            | ok items ↦ with_paddle_circuit_breaker outcome
          ]
      else none

  unfoldable pub manage_addon : ℕ → ManageAddonDto → PaddleOutcome → Quotas → Finished
  unfolding upsert_addon delete_addon with_paddle_circuit_breaker
  manage_addon tenant_id dto outcome db = elim (find_by_tenant_id db tenant_id) [
    | none ↦ raised (http (not_found "Subscription not found"))
    | some s ↦
        if is_trial_tier s.plan_tier
        then raised
            (http (bad_request "Add-ons are not available on trial. Please subscribe first."))
        else elim (get_addon_price_id config dto.resource) [
          | err e ↦ raised (http e)
          | ok price ↦
              finish (asked_paddle db s dto outcome)
                (recalculate_effective_limits tenant_id (write_addon s dto price db))
        ]
  ]
