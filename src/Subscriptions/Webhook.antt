-- ===== src/Subscriptions/Webhook.antt =====
-- src/modules/subscriptions/paddle-webhook.service.ts: the handlers of Paddle's events. A payload is
-- the parts of it that the handlers read, each of which may be missing. The writes of
-- `syncAddonsFromPaddleItems`, which run in one batch, run in the order that it lists them.
pub mod Sync
pub mod Handlers
pub mod Deliveries
pub mod Laws
pub mod RoundTrip
mod Tests
mod KeyList
use Prim.Native.String.{String}
use text.Mathlib.Text.{◌==◌ as str_eq}
use wash_flow.Prelude.{
  ℕ, Bool, not, false, Option, none, some, List, [], ◌∷◌, map, ltb, ◌==◌, any, filter, find?,
  get_or, if◌then◌else◌,
}
use wash_flow.Subscriptions.Plans.{PlanTier, ResourceKey}
use wash_flow.Subscriptions.Limits.{
  BillingInterval, monthly, yearly, SubscriptionStatus, active, past_due, paused, cancelled,
  trialing, Subscription, Quotas,
}
use wash_flow.Subscriptions.Service.{same_resource}
use wash_flow.Subscriptions.Paddle.{PaddleConfig, WebhookItem, addon_resource}
use wash_flow.Subscriptions.Addons.{upsert_addon, delete_addon}

pub record WebhookData : Type 0 where
  pub id : Option String
  pub customer_id : Option String
  pub tenant_id : Option ℕ
  pub custom_plan_tier : Option String
  pub items : Option (List WebhookItem)
  pub billing_cycle : Option String
  pub paddle_status : Option String
  pub scheduled_action : Option String
  pub period_start : Option ℕ
  pub period_end : Option ℕ
  pub subscription_id : Option String
  pub billing_period_end : Option ℕ

-- The events that the handlers dispatch.
pub data SubscriptionEvent : Type 0 where
  subscription_activated :
      (tenant_id : ℕ) → PlanTier → BillingInterval → (paddle_id : String) → SubscriptionEvent
  subscription_changed :
      (tenant_id : ℕ) → (old new : PlanTier) → (upgrade : Bool) → SubscriptionEvent
  subscription_cancelled :
      (tenant_id : ℕ) → (effective_at : ℕ) → (paddle_id : String) → SubscriptionEvent

-- How a handler ends: `threw` holds the rows that its writes had left when it threw.
pub data Handled : Type 0 where
  handled : Quotas → List SubscriptionEvent → Handled
  threw : Quotas → Handled

-- A string that is missing or empty.
abbrev pub non_empty : Option String → Option String
non_empty none = none
non_empty (some s) = if str_eq s "" then none else some s

-- A column that an update sets if the value is not undefined.
abbrev pub set_if {ℓ} : {A : Type ℓ} → Option A → Option A → Option A
set_if none old = old
set_if (some value) old = some value

unfoldable pub find_by_paddle_subscription_id : Quotas → String → Option Subscription
find_by_paddle_subscription_id db id =
    find? (λ s. elim s.paddle_subscription_id [ none ↦ false | some p ↦ str_eq p id ])
      db.subscriptions

unfoldable pub extract_billing_interval : WebhookData → Option BillingInterval
extract_billing_interval data' = elim data'.billing_cycle [
  | none ↦ none
  | some interval ↦
      if str_eq interval "year"
      then some yearly
      else if str_eq interval "month"
      then some monthly
      else none
]

unfoldable pub map_paddle_status : Option String → SubscriptionStatus
map_paddle_status none = active
map_paddle_status (some s) =
    if str_eq s "active"
    then active
    else if str_eq s "past_due"
    then past_due
    else if str_eq s "paused"
    then paused
    else if str_eq s "canceled"
    then cancelled
    else if str_eq s "trialing"
    then trialing
    else active

pub record AddonUpsert : Type 0 where
  pub resource : ResourceKey
  pub quantity : ℕ
  pub price_id : String

module _ (config : PaddleConfig) where
  -- The add-on that an item of the payload is, if it is one.
  unfoldable pub addon_of_item : WebhookItem → Option AddonUpsert
  addon_of_item item = elim (non_empty item.price_id) [
    | none ↦ none
    | some id ↦ elim (addon_resource config id) [
      | none ↦ none
      | some resource ↦
          some (record { resource = resource; quantity = get_or item.quantity 0; price_id = id })
    ]
  ]

  abbrev cons_some {ℓ} : {A : Type ℓ} → Option A → List A → List A
  cons_some none xs = xs
  cons_some (some x) xs = x ∷ xs

  -- The items that are add-ons, in order.
  unfoldable pub addons_in : List WebhookItem → List AddonUpsert
  unfolding addon_of_item
  addons_in [] = []
  addons_in (item ∷ rest) = cons_some (addon_of_item item) (addons_in rest)

abbrev pub upsert_all : ℕ → List AddonUpsert → Quotas → Quotas
upsert_all id [] db = db
upsert_all id (u ∷ us) db =
    upsert_all id us (upsert_addon id u.resource u.quantity (some u.price_id) db)

abbrev pub delete_all : ℕ → List ResourceKey → Quotas → Quotas
delete_all id [] db = db
delete_all id (r ∷ rs) db = delete_all id rs (delete_addon id r db)

abbrev pub has_resource : ResourceKey → AddonUpsert → Bool
has_resource r u = same_resource u.resource r

-- The add-ons of the subscription that Paddle no longer lists.
unfoldable pub stale_resources : ℕ → List AddonUpsert → Quotas → List ResourceKey
stale_resources id listed db =
    map (λ a. a.resource)
      (filter (λ a. not (any (has_resource a.resource) listed))
        (filter (λ a. a.subscription_id == id) db.addons))

-- The writes of the `Promise.all`, one after the other in the order of its list. They meet in a row
-- only if two items are of one resource.
abbrev pub sync_listed : ℕ → List AddonUpsert → Quotas → Quotas
sync_listed id listed db = delete_all id (stale_resources id listed db) (
    delete_all id (map (λ u. u.resource) (filter (λ u. not (ltb 0 u.quantity)) listed))
      (upsert_all id (filter (λ u. ltb 0 u.quantity) listed) db))

unfoldable pub sync_addons_from_paddle_items :
    PaddleConfig → ℕ → Option (List WebhookItem) → Quotas → Quotas
unfolding upsert_addon delete_addon stale_resources
sync_addons_from_paddle_items config id none db = db
sync_addons_from_paddle_items config id (some items) db = sync_listed id (addons_in config items) db
