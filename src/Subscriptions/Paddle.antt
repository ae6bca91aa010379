-- ===== src/Subscriptions/Paddle.antt =====
-- The prices of Paddle and the plans and add-ons that they stand for: getPriceId, getAddonPriceId and
-- buildAllPaddleItems of src/modules/subscriptions/subscriptions.service.ts, and the lookups that the
-- constructor of paddle-webhook.service.ts fills. Names of plans and keys are ASCII.
pub mod Laws
use Prim.Native.Char.{code}
use Prim.Native.String.{String}
use text.Mathlib.Text.{◌==◌ as str_eq}
use wash_flow.Prelude.{
  ℕ, ◌-◌, Bool, not, true, false, Option, none, some, List, [], ◌∷◌, ◌++◌, ◌&&◌, leb, ltb, ◌==◌,
  any, get_or, Result, ok, or_throw, bad_request, ◌>>=◌, if◌then◌else◌,
}
use wash_flow.Subscriptions.Plans.{
  PlanTier, trial, starter, business, enterprise, ResourceKey, branches, work_posts, users,
  services,
}
use wash_flow.Subscriptions.Limits.{BillingInterval, monthly, yearly, SubscriptionAddon}
use wash_flow.Subscriptions.Service.{same_resource}

-- `paddle.priceIds`, by keys, and `paddle.addonPriceIds`, by resources.
pub record PaddleConfig : Type 0 where
  pub price_ids : List (String × String)
  pub addon_price_ids : List (ResourceKey × String)

-- `${tier.toLowerCase()}_${interval.toLowerCase()}`
unfoldable pub price_key : PlanTier → BillingInterval → String
price_key trial monthly = "trial_monthly"
price_key trial yearly = "trial_yearly"
price_key starter monthly = "starter_monthly"
price_key starter yearly = "starter_yearly"
price_key business monthly = "business_monthly"
price_key business yearly = "business_yearly"
price_key enterprise monthly = "enterprise_monthly"
price_key enterprise yearly = "enterprise_yearly"

-- DEFAULT_PADDLE_PRICE_IDS
abbrev pub default_paddle_price_ids : List (String × String)
default_paddle_price_ids =
    ("starter_monthly", "pri_starter_monthly")
    ∷ ("starter_yearly", "pri_starter_yearly")
    ∷ ("business_monthly", "pri_business_monthly")
    ∷ ("business_yearly", "pri_business_yearly")
    ∷ ("enterprise_monthly", "pri_enterprise_monthly")
    ∷ ("enterprise_yearly", "pri_enterprise_yearly")
    ∷ []

-- DEFAULT_ADDON_PADDLE_PRICE_IDS
unfoldable pub default_addon_price_id : ResourceKey → String
default_addon_price_id branches = "pri_addon_branches"
default_addon_price_id work_posts = "pri_addon_work_posts"
default_addon_price_id users = "pri_addon_users"
default_addon_price_id services = "pri_addon_services"

abbrev pub value_of : List (String × String) → String → Option String
value_of [] key = none
value_of ((k, v) ∷ rest) key =
    let later = value_of rest key in if str_eq k key then some v else later

-- The key that was last set to a value.
abbrev pub last_key_of : List (String × String) → String → Option String → Option String
last_key_of [] value found = found
last_key_of ((k, v) ∷ rest) value found =
    last_key_of rest value (if str_eq v value then some k else found)

abbrev pub addon_value_of : List (ResourceKey × String) → ResourceKey → Option String
addon_value_of [] resource = none
addon_value_of ((r, v) ∷ rest) resource =
    let later = addon_value_of rest resource in if same_resource r resource then some v else later

abbrev pub last_resource_of :
    List (ResourceKey × String) → String → Option ResourceKey → Option ResourceKey
last_resource_of [] value found = found
last_resource_of ((r, v) ∷ rest) value found =
    last_resource_of rest value (if str_eq v value then some r else found)

abbrev pub default_addon_price_ids : List (ResourceKey × String)
default_addon_price_ids =
    (branches, default_addon_price_id branches)
    ∷ (work_posts, default_addon_price_id work_posts)
    ∷ (users, default_addon_price_id users)
    ∷ (services, default_addon_price_id services)
    ∷ []

-- A price that is missing or empty is refused.
abbrev present : Option String → Option String
present none = none
present (some id) = if str_eq id "" then none else some id

abbrev or_else : Option String → Option String → Option String
or_else none other = other
or_else (some v) other = some v

abbrev pub text_of : List ℕ → String → Bool
text_of [] String.[] = true
text_of [] (String.◌∷◌ c s) = false
text_of (n ∷ ns) String.[] = false
text_of (n ∷ ns) (String.◌∷◌ c s) = n == code c && text_of ns s

abbrev pub codes : String → List ℕ
codes String.[] = []
codes (String.◌∷◌ c s) = code c ∷ codes s

-- `split('_')[0].toUpperCase()`
abbrev upper : ℕ → ℕ
upper c = if leb b'a' c && leb c b'z' then c - 32 else c

abbrev first_word : List ℕ → List ℕ
first_word [] = []
first_word (c ∷ cs) = let rest = first_word cs in if c == b'_' then [] else upper c ∷ rest

-- A value of PlanTier by its name.
unfoldable pub tier_named : List ℕ → Option PlanTier
tier_named name =
    if text_of name "TRIAL"
    then some trial
    else if text_of name "STARTER"
    then some starter
    else if text_of name "BUSINESS"
    then some business
    else if text_of name "ENTERPRISE"
    then some enterprise
    else none

-- An item of a subscription as it is sent to Paddle.
pub record PaddleItem : Type 0 where
  pub price_id : String
  pub quantity : ℕ

-- An item of a webhook's payload, any part of which may be missing.
pub record WebhookItem : Type 0 where
  pub price_id : Option String
  pub plan_tier : Option String
  pub quantity : Option ℕ

module _ (config : PaddleConfig) where
  unfoldable pub get_price_id : PlanTier → BillingInterval → Result String
  unfolding price_key
  get_price_id tier interval =
      or_throw
        (present (
          or_else (value_of config.price_ids (price_key tier interval))
            (value_of default_paddle_price_ids (price_key tier interval))))
        (bad_request "No Paddle price ID configured")

  unfoldable pub get_addon_price_id : ResourceKey → Result String
  unfolding default_addon_price_id
  get_addon_price_id resource =
      or_throw
        (present (
          or_else (addon_value_of config.addon_price_ids resource)
            (some (default_addon_price_id resource))))
        (bad_request "No Paddle price ID configured for addon")

  -- The loop over the add-ons of `buildAllPaddleItems`.
  unfoldable pub addon_items : List SubscriptionAddon → Result (List PaddleItem)
  unfolding get_addon_price_id
  addon_items [] = ok []
  addon_items (a ∷ rest) =
      let others = addon_items rest in
      if ltb 0 a.quantity
      then (get_addon_price_id a.resource >>= λ id.
          others >>= λ items. ok (record { price_id = id; quantity = a.quantity } ∷ items))
      else others

  unfoldable pub build_all_paddle_items :
      PlanTier → Option BillingInterval → List SubscriptionAddon → Result (List PaddleItem)
  unfolding get_price_id addon_items
  build_all_paddle_items tier interval addons = do
    id ← get_price_id tier (get_or interval monthly)
    items ← addon_items addons
    ok (record { price_id = id; quantity = 1 } ∷ items)

  abbrev all_price_ids : List (String × String)
  all_price_ids = default_paddle_price_ids ++ config.price_ids

  -- `isPlanPriceId`
  unfoldable pub is_plan_price_id : String → Bool
  is_plan_price_id id = any (λ (key, value). str_eq value id) all_price_ids

  unfoldable pub extract_tier_from_plan_price_id : String → Option PlanTier
  unfolding tier_named
  extract_tier_from_plan_price_id id = elim (present (last_key_of all_price_ids id none)) [
    | none ↦ none
    | some key ↦ tier_named (first_word (codes key))
  ]

  -- `addonPriceIdToResource[priceId]`
  unfoldable pub addon_resource : String → Option ResourceKey
  unfolding default_addon_price_id
  addon_resource id = last_resource_of (default_addon_price_ids ++ config.addon_price_ids) id none

  abbrev tier_of_price : Option String → Option PlanTier
  tier_of_price none = none
  tier_of_price (some id) =
      if not (str_eq id "") && is_plan_price_id id then extract_tier_from_plan_price_id id else none

  abbrev named_tier : Option String → Option PlanTier
  named_tier none = none
  named_tier (some name) = tier_named (codes name)

  abbrev or_tier : Option PlanTier → Option PlanTier → Option PlanTier
  or_tier none other = other
  or_tier (some tier) other = some tier

  -- The loop over the items of `extractPlanTier`.
  unfoldable pub tier_of_items : List WebhookItem → Option PlanTier
  unfolding is_plan_price_id extract_tier_from_plan_price_id tier_named
  tier_of_items [] = none
  tier_of_items (item ∷ rest) =
      or_tier (named_tier item.plan_tier)
        (or_tier (tier_of_price item.price_id) (tier_of_items rest))

  unfoldable pub extract_plan_tier : Option (List WebhookItem) → Option String → PlanTier
  unfolding tier_of_items tier_named
  extract_plan_tier items custom_plan_tier =
      get_or (or_tier (tier_of_items (get_or items [])) (named_tier custom_plan_tier)) starter
