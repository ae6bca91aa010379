-- ===== src/Subscriptions/Service.antt =====
-- src/modules/subscriptions/subscriptions.service.ts: the limits that a subscription gets
-- (recalculateEffectiveLimits, validateDowngrade), and its cancellation and reactivation. How a call
-- of Paddle ends is an argument. An update goes to the row of the tenant, which is unique.
pub mod Laws
use Prim.Native.String.{String}
use text.Mathlib.Text.{◌==◌ as str_eq}
use wash_flow.Prelude.{
  ℕ, Bool, true, false, not, Option, none, some, List, [], ◌∷◌, ltb, leb, ◌==◌, get_or, filter,
  update_where, Result, ok, Error, conflict, not_found, bad_request, unavailable, if◌then◌else◌,
}
use wash_flow.Subscriptions.Plans.{
  PlanTier, ResourceKey, branches, work_posts, users, services, calculate_effective_limit,
}
use wash_flow.Subscriptions.Limits.{
  active, cancelled, Subscription, SubscriptionAddon, Quotas, find_by_tenant_id, count_resource,
}

abbrev pub same_resource : ResourceKey → ResourceKey → Bool
same_resource branches branches = true
same_resource work_posts work_posts = true
same_resource users users = true
same_resource services services = true
same_resource _ _ = false

-- The loop that fills `addonQuantities`: the last add-on of a resource counts.
abbrev pub addon_quantity : List SubscriptionAddon → ResourceKey → ℕ → ℕ
addon_quantity [] resource quantity = quantity
addon_quantity (a ∷ rest) resource quantity =
    addon_quantity rest resource
      (if same_resource a.resource resource then a.quantity else quantity)

-- `include: { addons: true }`
abbrev pub addons_of : Quotas → Subscription → List SubscriptionAddon
addons_of db s = filter (λ a. a.subscription_id == s.id) db.addons

unfoldable pub effective_limit : PlanTier → List SubscriptionAddon → ResourceKey → Option ℕ
effective_limit tier addons resource =
    calculate_effective_limit tier resource (addon_quantity addons resource 0)

-- `subscriptionsRepo.update` and `updateLimits`
unfoldable pub update_subscription : ℕ → (Subscription → Subscription) → Quotas → Quotas
update_subscription tenant_id change db = record db {
  subscriptions = update_where (λ s. s.tenant_id == tenant_id) change db.subscriptions;
}

abbrev pub with_limits : (ResourceKey → Option ℕ) → Subscription → Subscription
with_limits limits s = record s {
  max_branches = limits branches;
  max_work_posts = limits work_posts;
  max_users = limits users;
  max_services = limits services;
}

unfoldable pub recalculate_effective_limits : ℕ → Quotas → Quotas
unfolding update_subscription effective_limit
recalculate_effective_limits tenant_id db = elim (find_by_tenant_id db tenant_id) [
  | none ↦ db
  | some s ↦
      update_subscription tenant_id (with_limits (effective_limit s.plan_tier (addons_of db s))) db
]

abbrev pub exceeds : ℕ → Option ℕ → Bool
exceeds count none = false
exceeds count (some limit) = ltb limit count

abbrev resources : List ResourceKey
resources = users ∷ branches ∷ work_posts ∷ services ∷ []

unfoldable pub violations : Quotas → ℕ → PlanTier → List SubscriptionAddon → List ResourceKey
violations db tenant_id new_tier addons =
    filter (λ r. exceeds (count_resource db tenant_id r) (effective_limit new_tier addons r))
      resources

unfoldable pub validate_downgrade :
    Quotas → ℕ → PlanTier → List SubscriptionAddon → Result (Unit {0})
unfolding violations
validate_downgrade db tenant_id new_tier addons = elim (violations db tenant_id new_tier addons) [
  | [] ↦ ok tt
  | _ ↦ wash_flow.Prelude.err (conflict "Cannot downgrade: current usage exceeds new plan limits")
]

-- How a call of Paddle ends.
pub data PaddleOutcome : Type 0 where
  answered circuit_open failed : PaddleOutcome
  api_error : (error_code : String) → PaddleOutcome

-- What a call of the service throws.
pub data Raised : Type 0 where
  http : Error → Raised
  paddle_api_error : String → Raised
  other_error : Raised

pub data Finished : Type 0 where
  finished : Quotas → Finished
  raised : Raised → Finished

-- `withPaddleCircuitBreaker`: `none` is a call that returned.
unfoldable pub with_paddle_circuit_breaker : PaddleOutcome → Option Raised
with_paddle_circuit_breaker answered = none
with_paddle_circuit_breaker circuit_open =
    some
      (http (unavailable "Payment service is temporarily unavailable. Please try again shortly."))
with_paddle_circuit_breaker failed = some other_error
with_paddle_circuit_breaker (api_error error_code) = some (paddle_api_error error_code)

-- The `catch` of `cancelSubscription`.
abbrev unless_pending : Option Raised → Option Raised
unless_pending (some (paddle_api_error error_code)) =
    if str_eq error_code "subscription_locked_pending_changes"
    then none
    else some (paddle_api_error error_code)
unless_pending r = r

abbrev pub has_paddle_subscription : Subscription → Bool
has_paddle_subscription s = elim s.paddle_subscription_id [
  | none ↦ false
  | some id ↦ not (str_eq id "")
]

abbrev pub is_cancelled : Subscription → Bool
is_cancelled s = elim s.status [ cancelled ↦ true | _ ↦ false ]

abbrev pub finish : Option Raised → Quotas → Finished
finish none db = finished db
finish (some r) db = raised r

abbrev pub as_cancelled : ℕ → Subscription → Subscription → Subscription
as_cancelled now s row = record row {
  status = cancelled;
  cancelled_at = some now;
  cancel_effective_at = some (get_or s.current_period_end now);
}

unfoldable pub cancel_subscription : ℕ → PaddleOutcome → ℕ → Quotas → Finished
unfolding update_subscription with_paddle_circuit_breaker
cancel_subscription tenant_id outcome now db = elim (find_by_tenant_id db tenant_id) [
  | none ↦ raised (http (not_found "Subscription not found"))
  | some s ↦
      if not (has_paddle_subscription s)
      then raised (http (bad_request "No active Paddle subscription to cancel."))
      else if is_cancelled s
      then raised (http (bad_request "Subscription is already cancelled."))
      else finish (unless_pending (with_paddle_circuit_breaker outcome))
          (update_subscription tenant_id (as_cancelled now s) db)
]

abbrev pub as_reactivated : Subscription → Subscription
as_reactivated s = record s { status = active; cancelled_at = none; cancel_effective_at = none }

abbrev pub has_ended : Subscription → ℕ → Bool
has_ended s now = elim s.cancel_effective_at [ none ↦ false | some t ↦ leb t now ]

unfoldable pub reactivate_subscription : ℕ → PaddleOutcome → ℕ → Quotas → Finished
unfolding update_subscription with_paddle_circuit_breaker
reactivate_subscription tenant_id outcome now db = elim (find_by_tenant_id db tenant_id) [
  | none ↦ raised (http (not_found "Subscription not found"))
  | some s ↦
      if not (has_paddle_subscription s)
      then raised (http (bad_request "No Paddle subscription to reactivate."))
      else if not (is_cancelled s)
      then raised (http (bad_request "Subscription is not cancelled."))
      else if has_ended s now
      then raised
          (http (bad_request "Cancellation period has ended. Please create a new subscription."))
      else finish (with_paddle_circuit_breaker outcome)
          (update_subscription tenant_id as_reactivated db)
]
