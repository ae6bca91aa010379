-- ===== src/Subscriptions/Webhook/Handlers.antt =====
-- The handlers of src/modules/subscriptions/paddle-webhook.service.ts, one for each type of event,
-- and `dispatchHandler`. `now` is the clock.
use Prim.Native.String.{String}
use text.Mathlib.Text.{◌==◌ as str_eq}
use wash_flow.Prelude.{
  ℕ, Bool, not, true, false, Option, none, some, List, [], ◌∷◌, ◌&&◌, ◌==◌, get_or, if◌then◌else◌,
}
use wash_flow.Subscriptions.Plans.{PlanTier, plan_order, is_upgrade}
use wash_flow.Subscriptions.Limits.{
  monthly, SubscriptionStatus, active, past_due, paused, cancelled, Subscription, Quotas,
  find_by_tenant_id,
}
use wash_flow.Subscriptions.Service.{update_subscription, recalculate_effective_limits}
use wash_flow.Subscriptions.Paddle.{PaddleConfig, extract_plan_tier}
use wash_flow.Subscriptions.Webhook.{
  WebhookData, SubscriptionEvent, subscription_activated, subscription_changed,
  subscription_cancelled, Handled, handled, threw, non_empty, set_if,
  find_by_paddle_subscription_id, extract_billing_interval, map_paddle_status,
  sync_addons_from_paddle_items,
}

-- What a handler does once its payload names a subscription that there is.
abbrev with_subscription : Quotas → Option String → (String → Subscription → Handled) → Handled
with_subscription db id next = elim (non_empty id) [
  | none ↦ handled db []
  | some paddle_id ↦ elim (find_by_paddle_subscription_id db paddle_id) [
    | none ↦ handled db []
    | some s ↦ next paddle_id s
  ]
]

abbrev pub as_created : WebhookData → String → PlanTier → Subscription → Subscription
as_created data' paddle_id tier s = record s {
  paddle_subscription_id = some paddle_id;
  paddle_customer_id = set_if data'.customer_id s.paddle_customer_id;
  paddle_status = some "active";
  plan_tier = tier;
  billing_interval = set_if (extract_billing_interval data') s.billing_interval;
  status = active;
  is_trial = false;
  trial_ends_at = none;
  current_period_start = set_if data'.period_start s.current_period_start;
  current_period_end = set_if data'.period_end s.current_period_end;
}

abbrev pub is_cancel : Option String → Bool
is_cancel none = false
is_cancel (some action) = str_eq action "cancel"

unfoldable pub updated_status : WebhookData → SubscriptionStatus
unfolding map_paddle_status
updated_status data' =
    if is_cancel data'.scheduled_action then cancelled else map_paddle_status data'.paddle_status

abbrev is_active : SubscriptionStatus → Bool
is_active active = true
is_active _ = false

abbrev pub as_updated : WebhookData → PlanTier → Subscription → Subscription
as_updated data' tier s =
    let clears = is_active (updated_status data') && not (is_cancel data'.scheduled_action) in
    record s {
      plan_tier = tier;
      billing_interval = set_if (extract_billing_interval data') s.billing_interval;
      status = updated_status data';
      paddle_status = set_if data'.paddle_status s.paddle_status;
      current_period_start = set_if data'.period_start s.current_period_start;
      current_period_end = set_if data'.period_end s.current_period_end;
      cancelled_at = if clears then none else s.cancelled_at;
      cancel_effective_at = if clears then none else s.cancel_effective_at;
    }

-- `previousTier !== newTier`
abbrev pub changes : ℕ → PlanTier → PlanTier → List SubscriptionEvent
changes tenant_id old new =
    if plan_order old == plan_order new
    then []
    else subscription_changed tenant_id old new (is_upgrade old new) ∷ []

abbrev pub as_canceled : WebhookData → ℕ → Subscription → Subscription
as_canceled data' now s = record s {
  status = cancelled;
  paddle_status = some "canceled";
  cancelled_at = some now;
  cancel_effective_at = set_if data'.period_end s.cancel_effective_at;
}

abbrev pub marked : SubscriptionStatus → String → Subscription → Subscription
marked status paddle_status s = record s { status = status; paddle_status = some paddle_status }

unfoldable pub handle_subscription_status :
    SubscriptionStatus → String → WebhookData → Quotas → Handled
unfolding update_subscription find_by_paddle_subscription_id
handle_subscription_status status paddle_status data' db =
    with_subscription db data'.id
      (λ paddle_id s. handled (update_subscription s.tenant_id (marked status paddle_status) db) [])

unfoldable pub handle_subscription_past_due : WebhookData → Quotas → Handled
unfolding handle_subscription_status
handle_subscription_past_due = handle_subscription_status past_due "past_due"

unfoldable pub handle_subscription_paused : WebhookData → Quotas → Handled
unfolding handle_subscription_status
handle_subscription_paused = handle_subscription_status paused "paused"

unfoldable pub handle_subscription_resumed : WebhookData → Quotas → Handled
unfolding handle_subscription_status
handle_subscription_resumed = handle_subscription_status active "active"

unfoldable pub handle_subscription_canceled : WebhookData → ℕ → Quotas → Handled
unfolding update_subscription find_by_paddle_subscription_id
handle_subscription_canceled data' now db = with_subscription db data'.id (λ paddle_id s.
    handled (update_subscription s.tenant_id (as_canceled data' now) db)
      (subscription_cancelled s.tenant_id (get_or data'.period_end now) paddle_id ∷ []))

unfoldable pub handle_transaction_completed : WebhookData → Quotas → Handled
unfolding update_subscription find_by_paddle_subscription_id
handle_transaction_completed data' db = with_subscription db data'.subscription_id (λ paddle_id s.
    elim data'.billing_period_end [
      | none ↦ handled db []
      | some ends_at ↦
          handled
            (update_subscription s.tenant_id (λ x. record x { current_period_end = some ends_at })
              db)
            []
    ])

module _ (config : PaddleConfig) where
  abbrev pub tier_of : WebhookData → PlanTier
  tier_of data' = extract_plan_tier config data'.items data'.custom_plan_tier

  -- The row of the subscription, its add-ons, and the limits that follow from them.
  unfoldable pub apply_update : WebhookData → Subscription → Quotas → Quotas
  unfolding update_subscription sync_addons_from_paddle_items recalculate_effective_limits
  apply_update data' s db = recalculate_effective_limits s.tenant_id (
      sync_addons_from_paddle_items config s.id data'.items
        (update_subscription s.tenant_id (as_updated data' (tier_of data')) db))

  unfoldable pub handle_subscription_updated : WebhookData → Quotas → Handled
  unfolding apply_update find_by_paddle_subscription_id is_upgrade plan_order
  handle_subscription_updated data' db = with_subscription db data'.id (λ paddle_id s.
      handled (apply_update data' s db) (changes s.tenant_id s.plan_tier (tier_of data')))

  abbrev sync_created : String → WebhookData → Quotas → Quotas
  sync_created paddle_id data' db = elim (find_by_paddle_subscription_id db paddle_id) [
    | none ↦ db
    | some s ↦ sync_addons_from_paddle_items config s.id data'.items db
  ]

  -- The update of a row that is not there throws before anything is written.
  abbrev created_of : WebhookData → String → ℕ → Quotas → Handled
  created_of data' paddle_id tenant_id db = elim (find_by_tenant_id db tenant_id) [
    | none ↦ threw db
    | some _ ↦
        handled
          (recalculate_effective_limits tenant_id (
            sync_created paddle_id data'
              (update_subscription tenant_id (as_created data' paddle_id (tier_of data')) db)))
          (subscription_activated tenant_id (tier_of data')
              (get_or (extract_billing_interval data') monthly) paddle_id
            ∷ [])
  ]

  unfoldable pub handle_subscription_created : WebhookData → Quotas → Handled
  unfolding update_subscription sync_addons_from_paddle_items recalculate_effective_limits
      find_by_paddle_subscription_id
  handle_subscription_created data' db = elim (non_empty data'.id) [
    | none ↦ handled db []
    | some paddle_id ↦ elim data'.tenant_id [
      | none ↦ handled db []
      | some tenant_id ↦ created_of data' paddle_id tenant_id db
    ]
  ]

  unfoldable pub dispatch_handler : String → WebhookData → ℕ → Quotas → Handled
  unfolding handle_subscription_created handle_subscription_updated handle_subscription_canceled
      handle_subscription_past_due handle_subscription_paused handle_subscription_resumed
      handle_transaction_completed
  dispatch_handler event_type data' now db =
      if str_eq event_type "subscription.created"
      then handle_subscription_created data' db
      else if str_eq event_type "subscription.updated"
      then handle_subscription_updated data' db
      else if str_eq event_type "subscription.canceled"
      then handle_subscription_canceled data' now db
      else if str_eq event_type "subscription.past_due"
      then handle_subscription_past_due data' db
      else if str_eq event_type "subscription.paused"
      then handle_subscription_paused data' db
      else if str_eq event_type "subscription.resumed"
      then handle_subscription_resumed data' db
      else if str_eq event_type "transaction.completed"
      then handle_transaction_completed data' db
      else handled db []
